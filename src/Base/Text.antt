-- ===== src/Base/Text.antt =====
-- A JavaScript string as the list of its UTF-16 code units, with the methods of
-- `String.prototype` that the program calls.
use Prim.Native.Nat.{ℕ, zero, suc}
use Prim.Native.Char.{code}
use Prim.Native.String.{String}
use mathlib.Core.Path.{◌≡◌, refl, ap, sym, subst}
use mathlib.Core.Logic.{◌↔◌, inl, inr}
use mathlib.Core.Bool.{Bool, true, false, not, ◌&&◌, ◌||◌}
use mathlib.Core.List.{List, [], ◌∷◌, ◌++◌}
use native.Mathlib.Omega.{arith}
use purge_api_gateway.Base.Tests.{◌==◌, or_iff, if◌then◌else◌}
use purge_api_gateway.Base.Lists.{every}

abbrev pub Str : Type 0
Str = List ℕ

-- An ASCII literal of the source.
abbrev pub lit : String → Str
lit String.[] = []
lit (String.◌∷◌ c s) = code c ∷ lit s

-- `s === t`
unfoldable pub str_eq : Str → Str → Bool
str_eq [] [] = true
str_eq (a ∷ s) (b ∷ t) = a == b && str_eq s t
str_eq _ _ = false

pub str_eq_iff : (s t : Str) → (str_eq s t ≡ true) ↔ (s ≡ t)
unfolding str_eq
str_eq_iff [] [] = (λ _. refl, λ _. refl)
str_eq_iff [] (b ∷ t) = ground arith
str_eq_iff (a ∷ s) [] = ground arith
str_eq_iff (a ∷ s) (b ∷ t) = ground (arith, str_eq_iff s t)

-- `s.startsWith(t)`
unfoldable pub starts_with : Str → Str → Bool
starts_with s [] = true
starts_with [] (b ∷ t) = false
starts_with (a ∷ s) (b ∷ t) = a == b && starts_with s t

-- `s.endsWith(t)`
unfoldable pub ends_with : Str → Str → Bool
ends_with [] t = str_eq [] t
ends_with (a ∷ s) t = str_eq (a ∷ s) t || ends_with s t

-- `s.includes(t)`
unfoldable pub includes : Str → Str → Bool
includes [] t = starts_with [] t
includes (a ∷ s) t = starts_with (a ∷ s) t || includes s t

-- `s.slice(0, -1)`
unfoldable pub drop_last : Str → Str
drop_last [] = []
drop_last (a ∷ []) = []
drop_last (a ∷ b ∷ s) = a ∷ drop_last (b ∷ s)

pub starts_with_iff : (s t : Str) → (starts_with s t ≡ true) ↔ ((rest : Str) × (s ≡ t ++ rest))
unfolding starts_with
starts_with_iff s [] = (λ _. (s, refl), λ _. refl)
starts_with_iff [] (b ∷ t) = ground arith
starts_with_iff (a ∷ s) (b ∷ t) = ground (arith, starts_with_iff s t)

-- `s.endsWith(t)` holds exactly of what ends in `t`.
ends_with_sound : (s t : Str) → ends_with s t ≡ true → (front : Str) × (s ≡ front ++ t)
unfolding ends_with
ends_with_sound [] t h = ([], (str_eq_iff [] t).0 h)
ends_with_sound (a ∷ s) t h = elim ((or_iff _ _).0 h) [
  | inl same ↦ ([], (str_eq_iff (a ∷ s) t).0 same)
  | inr later ↦ let (front, e) = ends_with_sound s t later in (a ∷ front, ap (◌∷◌ a) e)
]

str_eq_refl : (s : Str) → str_eq s s ≡ true
str_eq_refl s = (str_eq_iff s s).1 refl

ends_with-append : (front t : Str) → ends_with (front ++ t) t ≡ true
unfolding ends_with
ends_with-append [] [] = str_eq_refl []
ends_with-append [] (b ∷ t) = (or_iff _ _).1 (inl (str_eq_refl (b ∷ t)))
ends_with-append (a ∷ s) t = (or_iff _ _).1 (inr (ends_with-append s t))

pub ends_with_iff : (s t : Str) → (ends_with s t ≡ true) ↔ ((front : Str) × (s ≡ front ++ t))
ends_with_iff s t =
    (ends_with_sound s t, λ p. subst (λ r. ends_with r t ≡ true) (sym p.1) (ends_with-append p.0 t))

includes_sound :
    (s t : Str) → includes s t ≡ true → (front : Str) × (rest : Str) × (s ≡ front ++ (t ++ rest))
unfolding includes
includes_sound [] t h = let (rest, e) = (starts_with_iff [] t).0 h in ([], rest, e)
includes_sound (a ∷ s) t h = elim ((or_iff _ _).0 h) [
  | inl here ↦ let (rest, e) = (starts_with_iff (a ∷ s) t).0 here in ([], rest, e)
  | inr later ↦ let (front, rest, e) = includes_sound s t later in (a ∷ front, rest, ap (◌∷◌ a) e)
]

includes_of_starts : (s t : Str) → starts_with s t ≡ true → includes s t ≡ true
unfolding includes
includes_of_starts [] t h = h
includes_of_starts (a ∷ s) t h = (or_iff _ _).1 (inl h)

includes-append : (front t rest : Str) → includes (front ++ (t ++ rest)) t ≡ true
unfolding includes
includes-append [] t rest = includes_of_starts (t ++ rest) t ((starts_with_iff _ t).1 (rest, refl))
includes-append (a ∷ s) t rest = (or_iff _ _).1 (inr (includes-append s t rest))

pub includes_iff :
    (s t : Str)
    → (includes s t ≡ true) ↔ ((front : Str) × (rest : Str) × (s ≡ front ++ (t ++ rest)))
includes_iff s t = (
  includes_sound s t,
  λ p. subst (λ r. includes r t ≡ true) (sym p.2) (includes-append p.0 t p.1),
)

-- `s.slice(0, -1)` drops exactly the last code unit.
pub drop_last-append : (s : Str) (a : ℕ) → drop_last (s ++ a ∷ []) ≡ s
unfolding drop_last
drop_last-append [] a = refl
drop_last-append (b ∷ []) a = refl
drop_last-append (b ∷ c ∷ s) a = ap (◌∷◌ b) (drop_last-append (c ∷ s) a)

-- `s.slice(0, n)` and `s.slice(n)`
abbrev pub take : ℕ → Str → Str
take zero s = []
take (suc n) [] = []
take (suc n) (a ∷ s) = a ∷ take n s

abbrev pub drop : ℕ → Str → Str
drop zero s = s
drop (suc n) [] = []
drop (suc n) (a ∷ s) = drop n s

abbrev pub prepend : ℕ → List Str → List Str
prepend c [] = (c ∷ []) ∷ []
prepend c (part ∷ parts) = (c ∷ part) ∷ parts

-- `s.split(c)` for a separator of one unit
unfoldable pub split_on : ℕ → Str → List Str
split_on c [] = [] ∷ []
split_on c (a ∷ s) = let rest = split_on c s in if a == c then [] ∷ rest else prepend a rest

-- The text has no unit `c`.
abbrev pub lacks : ℕ → Str → Bool
lacks c s = every (λ a. not (a == c)) s

pub starts_with-append : (s rest : Str) → starts_with (s ++ rest) s ≡ true
starts_with-append s rest = (starts_with_iff _ s).1 (rest, refl)

-- A longer text begins with what its front begins with.
pub starts_with-extend :
    (s t rest : Str) → starts_with s t ≡ true → starts_with (s ++ rest) t ≡ true
unfolding starts_with
starts_with-extend s [] rest h = ground (arith, h)
starts_with-extend [] (b ∷ t) rest h = ground (arith, h)
starts_with-extend (a ∷ s) (b ∷ t) rest h = ground (arith, starts_with-extend s t rest)

-- Without its last unit `c` a text still begins with what has no `c`.
pub starts_with-init :
    (s t : Str) (c : ℕ)
    → starts_with (s ++ c ∷ []) t ≡ true
    → lacks c t ≡ true
    → starts_with s t ≡ true
unfolding starts_with
starts_with-init s [] c h k = ground arith
starts_with-init [] (b ∷ t) c h k = ground arith
starts_with-init (a ∷ s) (b ∷ t) c h k = ground (arith, starts_with-init s t c)

-- A prefix of a prefix.
pub starts_with_trans :
    (s t u : Str) → starts_with s t ≡ true → starts_with t u ≡ true → starts_with s u ≡ true
unfolding starts_with
starts_with_trans s t [] h k = ground arith
starts_with_trans s [] (c ∷ u) h k = ground arith
starts_with_trans [] (b ∷ t) (c ∷ u) h k = ground arith
starts_with_trans (a ∷ s) (b ∷ t) (c ∷ u) h k = ground (arith, starts_with_trans s t u)

pub lacks-append : (c : ℕ) (s t : Str) → lacks c (s ++ t) ≡ (lacks c s && lacks c t)
lacks-append c [] t = refl
lacks-append c (a ∷ s) t = ground (arith, lacks-append c s t)
