-- ===== src/Upstream/Binding/Covers.antt =====
-- What a pattern that lies within a root, or begins with a prefix, can cover.
use purge_api_gateway.Base.{
  List, [], ◌∷◌, ◌++◌, true, ℕ, ◌≡◌, ◌⊎◌, inl, inr, refl, sym, ap, ◌∙◌, subst, some, Str, lit,
  starts_with, starts_with-append, starts_with-extend, starts_with-init, ◌==◌, lacks, lacks-append,
  split_on, prepend, All, Any, append_assoc, Bool-cases, arith,
}
use mathlib.Core.Bool.{false≢true}
use mathlib.Core.List.{append-nil}
use mathlib.Core.Option.{some-injective, none-ne-some}
use purge_api_gateway.Policy.Matching.{CoversAction, CoversResource}
use purge_api_gateway.Upstream.Binding.{first}

-- The resource is the root itself, or stands below it.
abbrev pub Inside : Str → Str → Type 0
Inside root resource = (resource ≡ root) ⊎ (starts_with resource (root ++ lit "/") ≡ true)

-- The text has no star.
abbrev pub IsSpecific : Str → Type 0
IsSpecific s = lacks b'*' s ≡ true

star_apart :
    (t : Str) (c : ℕ) → IsSpecific t → starts_with (lit "*") (t ++ c ∷ []) ≡ true → c ≡ b'*'
unfolding starts_with
star_apart [] c h k = ground arith
star_apart (a ∷ []) c h k = ground arith
star_apart (a ∷ b ∷ t) c h k = ground arith

pub CoversResource-Inside :
    (root resource p : Str)
    → IsSpecific root
    → Inside root p
    → CoversResource resource p
    → Inside root resource
CoversResource-Inside root resource p h inside (CoversResource.star e) = elim inside [
  | inl same ↦ absurd (false≢true (ap (lacks b'*') (sym e ∙ same) ∙ h))
  | inr below ↦ absurd (
      ground (
        arith,
        star_apart root b'/' h (subst (λ x. starts_with x (root ++ lit "/") ≡ true) e below),
      ))
]
CoversResource-Inside root resource p h inside (CoversResource.exact e) =
    subst (Inside root) e inside
CoversResource-Inside root resource p h inside (CoversResource.stem front rest e e') = elim inside [
  | inl same ↦
      absurd (ground (arith, lacks-append b'*' front (lit "*"), ap (lacks b'*') (sym e ∙ same), h))
  | inr below ↦ inr (
      subst (λ x. starts_with x (root ++ lit "/") ≡ true) (sym e')
        (starts_with-extend front (root ++ lit "/") rest (
          starts_with-init front (root ++ lit "/") b'*'
            (subst (λ x. starts_with x (root ++ lit "/") ≡ true) e below)
            (ground (arith, lacks-append b'*' root (lit "/"), h)))))
]
CoversResource-Inside root resource p h inside (CoversResource.parent rest e) = inr (
    subst (λ x. starts_with x (root ++ lit "/") ≡ true) (sym e)
      (starts_with-extend (p ++ lit "/") (root ++ lit "/") rest (elim inside [
        | inl same ↦
            subst (λ x. starts_with (x ++ lit "/") (root ++ lit "/") ≡ true) (sym same)
              (subst (λ x. starts_with x (root ++ lit "/") ≡ true) (append-nil (root ++ lit "/"))
                (starts_with-append (root ++ lit "/") []))
        | inr below ↦ starts_with-extend p (root ++ lit "/") (lit "/") below
      ])))

starts_with-star : (c : ℕ) (t : Str) → IsSpecific (c ∷ t) → starts_with (lit "*") (c ∷ t) ≡ true → ⊥
unfolding starts_with
starts_with-star c t h k = ground arith

CoversAction-starts_with :
    (action p : Str) (c : ℕ) (t : Str)
    → IsSpecific (c ∷ t)
    → starts_with p (c ∷ t) ≡ true
    → CoversAction action p
    → starts_with action (c ∷ t) ≡ true
CoversAction-starts_with action p c t h starts (CoversAction.star e) =
    absurd (starts_with-star c t h (subst (λ x. starts_with x (c ∷ t) ≡ true) e starts))
CoversAction-starts_with action p c t h starts (CoversAction.exact e) =
    subst (λ x. starts_with x (c ∷ t) ≡ true) e starts
CoversAction-starts_with action p c t h starts (CoversAction.service name rest e e') =
    subst (λ x. starts_with x (c ∷ t) ≡ true) (sym e')
      (starts_with-extend (name ++ lit ":") (c ∷ t) rest (
        starts_with-init (name ++ lit ":") (c ∷ t) b'*'
          (subst (λ x. starts_with x (c ∷ t) ≡ true)
            (e ∙ sym (append_assoc name (lit ":") (lit "*"))) starts)
          h))

-- A text that is split has a first part.
pub split_on-some : (c : ℕ) (s : Str) → (p : Str) × (first (split_on c s) ≡ some p)
unfolding split_on
split_on-some c [] = ([], refl)
split_on-some c (a ∷ s) = elim (Bool-cases (a == c)) [
  | inl here ↦ rw here ([], refl)
  | inr later ↦ rw later (prepended a (split_on c s))
]
  where
    prepended : (a : ℕ) (parts : List Str) → (p : Str) × (first (prepend a parts) ≡ some p)
    prepended a [] = (a ∷ [], refl)
    prepended a (part ∷ parts) = (a ∷ part, refl)

first-prepend :
    (a : ℕ) (parts : List Str) (q p : Str)
    → first parts ≡ some q
    → first (prepend a parts) ≡ some p
    → p ≡ a ∷ q
first-prepend a [] q p h k = absurd (none-ne-some _ h)
first-prepend a (part ∷ parts) q p h k =
    sym (some-injective _ _ k) ∙ ap (◌∷◌ a) (some-injective _ _ h)

-- The part before the first unit `c` is the text, or the text goes on with `c` behind it.
pub split_on-first :
    (c : ℕ) (s p : Str)
    → first (split_on c s) ≡ some p
    → (s ≡ p) ⊎ (starts_with s (p ++ c ∷ []) ≡ true)
unfolding split_on starts_with
split_on-first c [] p h = inl (some-injective _ _ h)
split_on-first c (a ∷ s) p h = elim (Bool-cases (a == c)) [
  | inl here ↦
      let none_before : [] ≡ p = some-injective _ _ (rw here at h) in
      inr (subst (λ x. starts_with (a ∷ s) (x ++ c ∷ []) ≡ true) none_before (ground (arith, here)))
  | inr later ↦
      let (q, found) = split_on-some c s in
      let same : p ≡ a ∷ q = first-prepend a (split_on c s) q p found (rw later at h) in
      elim (split_on-first c s q found) [
        | inl whole ↦ inl (ap (◌∷◌ a) whole ∙ sym same)
        | inr goes_on ↦ inr (
            subst (λ x. starts_with (a ∷ s) (x ++ c ∷ []) ≡ true) (sym same)
              (ground (arith, goes_on)))
      ]
]

abbrev pub IsPrefix : Str → Type 0
IsPrefix [] = ⊥
IsPrefix (c ∷ t) = IsSpecific (c ∷ t)

covered_starts :
    (action p t : Str)
    → IsPrefix t
    → starts_with p t ≡ true
    → CoversAction action p
    → starts_with action t ≡ true
covered_starts action p [] h starts covers = absurd h
covered_starts action p (c ∷ t) h starts covers =
    CoversAction-starts_with action p c t h starts covers

pub covered_prefix :
    (action p : Str) (prefixes : List Str)
    → All IsPrefix prefixes
    → CoversAction action p
    → Any (λ t. starts_with p t ≡ true) prefixes
    → Any (λ t. starts_with action t ≡ true) prefixes
covered_prefix action p [] h covers starts = absurd starts
covered_prefix action p (t ∷ ts) (h, hs) covers starts = elim starts [
  | inl here ↦ inl (covered_starts action p t h here covers)
  | inr there ↦ inr (covered_prefix action p ts hs covers there)
]
