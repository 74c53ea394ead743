-- ===== src/S3/Operations/ConditionFields/Laws.antt =====
-- What the derived key fields of `buildConditionFields` (src/s3/operations.ts) say of the key.
use purge_api_gateway.Base.{
  take, drop, lacks, [], ◌∷◌, ◌++◌, Bool, true, false, ℕ, zero, suc, ◌==◌, Option, none, some, Str,
  str_eq, lit, lookup, insert, lookup-insert, if◌then◌else◌, subst, ◌≡◌, ◌∙◌, refl, sym, ap, ◌⊎◌,
  inl, inr, Bool-cases, Option-cases, arith,
}
use mathlib.Core.Option.{some-injective, none-ne-some}
use purge_api_gateway.Policy.Types.{FieldValue, text, Fields}
use purge_api_gateway.S3.Operations.{Pairs, is_present, trim_slash, split_slash, ◌>>=◌, S3Operation}
use purge_api_gateway.S3.Operations.ConditionFields.{
  later, last_index_of, put_text, put_path, behind, put_extension, put_key, put_source,
  put_list_prefix, put_copy_source, build_condition_fields,
}

take-drop : (n : ℕ) (s : Str) → take n s ++ drop n s ≡ s
take-drop zero s = refl
take-drop (suc n) [] = refl
take-drop (suc n) (a ∷ s) = ap (◌∷◌ a) (take-drop n s)

last_index_of-none : (c : ℕ) (s : Str) → last_index_of c s ≡ none → lacks c s ≡ true
unfolding last_index_of
last_index_of-none c [] h = refl
last_index_of-none c (a ∷ s) h = elim (Option-cases (last_index_of c s)) [
  | inl e ↦ elim (Bool-cases (a == c)) [
    | inl f ↦ ground (arith, h, e, f)
    | inr f ↦ ground (arith, last_index_of-none c s e, f)
  ]
  | inr (i, e) ↦ ground (arith, h, e)
]

last_index_of-some :
    (c : ℕ) (s : Str) (i : ℕ)
    → last_index_of c s ≡ some i
    → ((front : Str) × (take (suc i) s ≡ front ++ c ∷ [])) × (lacks c (drop (suc i) s) ≡ true)
unfolding last_index_of
last_index_of-some c [] i h = absurd (none-ne-some _ h)
last_index_of-some c (a ∷ s) i h = elim (Option-cases (last_index_of c s)) [
  | inl e ↦ elim (Bool-cases (a == c)) [
    | inl f ↦
        let zero_is : 0 ≡ i =
          some-injective _ _
            (sym (ap (later true) e) ∙ (sym (ap (λ b. later b (last_index_of c s)) f) ∙ h)) in
        subst
          (λ n.
            ((front : Str) × (take (suc n) (a ∷ s) ≡ front ++ c ∷ []))
            × (lacks c (drop (suc n) (a ∷ s)) ≡ true))
          zero_is (([], ap (λ x. x ∷ []) (ground (arith, f))), last_index_of-none c s e)
    | inr f ↦ ground (arith, h, e, f)
  ]
  | inr (j, e) ↦
      let suc_is : suc j ≡ i = some-injective _ _ (sym (ap (later (a == c)) e) ∙ h) in
      let ((front, p), q) = last_index_of-some c s j e in
      subst
        (λ n.
          ((front : Str) × (take (suc n) (a ∷ s) ≡ front ++ c ∷ []))
          × (lacks c (drop (suc n) (a ∷ s)) ≡ true))
        suc_is ((a ∷ front, ap (◌∷◌ a) p), q)
]

-- The two parts of a key: `prefix` ends at the last slash, `name` has none.
abbrev pub Parts : Str → Str → Str → Type 0
Parts key prefix name =
    (prefix ++ name ≡ key)
    × (lacks b'/' name ≡ true)
    × ((prefix ≡ []) ⊎ ((front : Str) × (prefix ≡ front ++ b'/' ∷ [])))

abbrev pub Holds : Str → Fields → Type 0
Holds key fields =
    (prefix : Str) × (name : Str) × (lookup (lit "key.prefix") fields ≡ some (text prefix))
    × (lookup (lit "key.filename") fields ≡ some (text name))
    × Parts key prefix name

put_path-Holds :
    (key : Str) (slash : Option ℕ) (fields : Fields)
    → last_index_of b'/' key ≡ slash
    → Holds key (put_path key slash fields)
unfolding put_path str_eq
put_path-Holds key none fields h = (
  [],
  key,
  lookup-insert _ _ _ _ ∙ lookup-insert _ _ _ _,
  lookup-insert _ _ _ _,
  (refl, last_index_of-none _ key h, inl refl),
)
put_path-Holds key (some i) fields h =
    let (ends, clean) = last_index_of-some _ key i h in
    (
      take (suc i) key,
      drop (suc i) key,
      lookup-insert _ _ _ _ ∙ lookup-insert _ _ _ _,
      lookup-insert _ _ _ _,
      (take-drop (suc i) key, clean, inr ends),
    )

-- A field of another name leaves the two in place.
insert-Holds :
    (key name : Str) (v : FieldValue) (fields : Fields)
    → str_eq name (lit "key.prefix") ≡ false
    → str_eq name (lit "key.filename") ≡ false
    → Holds key fields
    → Holds key (insert name v fields)
insert-Holds key name v fields other_prefix other_name (prefix, file, p, q, parts) = (
  prefix,
  file,
  lookup-insert name _ v fields
      ∙ (ap (λ b. if b then some v else lookup (lit "key.prefix") fields) other_prefix ∙ p),
  lookup-insert name _ v fields
      ∙ (ap (λ b. if b then some v else lookup (lit "key.filename") fields) other_name ∙ q),
  parts,
)

if-Holds :
    (key : Str) (b : Bool) (x y : Fields)
    → Holds key x
    → Holds key y
    → Holds key (if b then x else y)
if-Holds key true x y hx hy = hx
if-Holds key false x y hx hy = hy

put_extension-Holds :
    (key : Str) (dot : Option ℕ) (fields : Fields)
    → Holds key fields
    → Holds key (put_extension key dot fields)
unfolding put_extension str_eq
put_extension-Holds key none fields h = h
put_extension-Holds key (some dot) fields h =
    if-Holds key (behind dot (last_index_of b'/' key)) _ _ (insert-Holds key _ _ fields refl refl h)
      h

put_text-Holds :
    (key name : Str) (value : Option Str) (fields : Fields)
    → str_eq name (lit "key.prefix") ≡ false
    → str_eq name (lit "key.filename") ≡ false
    → Holds key fields
    → Holds key (put_text name value fields)
unfolding put_text
put_text-Holds key name value fields p q h =
    if-Holds key (is_present value) _ _ (insert-Holds key name _ fields p q h) h

put_source-Holds :
    (key : Str) (source : Str × Option Str) (fields : Fields)
    → Holds key fields
    → Holds key (put_source source fields)
unfolding put_source str_eq
put_source-Holds key (bucket, none) fields h = insert-Holds key _ _ fields refl refl h
put_source-Holds key (bucket, some source) fields h =
    insert-Holds key _ _ _ refl refl (insert-Holds key _ _ fields refl refl h)

put_list_prefix-Holds :
    (key : Str) (value : Option Str) (fields : Fields)
    → Holds key fields
    → Holds key (put_list_prefix value fields)
unfolding put_list_prefix str_eq
put_list_prefix-Holds key none fields h = h
put_list_prefix-Holds key (some value) fields h = insert-Holds key _ _ fields refl refl h

put_key-Holds :
    (key : Str) (fields : Fields)
    → is_present (some key) ≡ true
    → Holds key (put_key (some key) fields)
unfolding put_key
put_key-Holds (c ∷ s) fields h = put_extension-Holds (c ∷ s) _ _ (put_path-Holds (c ∷ s) _ _ refl)
put_key-Holds [] fields h = ground (arith, h)

some_of_bind :
    (o : Option Fields) (f : Fields → Fields) (b : Fields)
    → (o >>= λ a. some (f a)) ≡ some b
    → (a : Fields) × (o ≡ some a) × (f a ≡ b)
some_of_bind none f b e = absurd (none-ne-some _ e)
some_of_bind (some a) f b e = (a, refl, some-injective _ _ e)

module _ (decode : Str → Option Str) where
  put_copy_source-Holds :
      (key : Str) (source : Option Str) (fields after : Fields)
      → Holds key fields
      → put_copy_source decode source fields ≡ some after
      → Holds key after
  unfolding put_copy_source
  put_copy_source-Holds key none fields after h e = subst (Holds key) (some-injective _ _ e) h
  put_copy_source-Holds key (some []) fields after h e = subst (Holds key) (some-injective _ _ e) h
  put_copy_source-Holds key (some (c ∷ s)) fields after h e = elim (Option-cases (decode (c ∷ s))) [
    | inl f ↦ absurd (
        none-ne-some _
          (sym (ap (λ o. o >>= λ d. some (put_source (split_slash (trim_slash d)) fields)) f) ∙ e))
    | inr (d, f) ↦
        subst (Holds key)
          (some-injective _ _ (
            sym (ap (λ o. o >>= λ d. some (put_source (split_slash (trim_slash d)) fields)) f) ∙ e))
          (put_source-Holds key (split_slash (trim_slash d)) fields h)
  ]

  -- Where a request is on a key that is not empty and its fields are built, the fields key.prefix
  -- and key.filename are there, the two joined are the key, the file name has no slash, and the
  -- prefix is empty or ends in a slash.
  pub build_condition_fields-Holds :
      (op : S3Operation) (method : Str) (params headers : Pairs) (key : Str) (fields : Fields)
      → op.key ≡ some key
      → is_present (some key) ≡ true
      → build_condition_fields decode op method headers params ≡ some fields
      → Holds key fields
  unfolding build_condition_fields str_eq
  build_condition_fields-Holds op method params headers key fields on_key present e =
      let before : Fields =
        put_text (lit "bucket") (op.bucket) ((lit "method", text method) ∷ []) in
      let target : Holds key (put_key (op.key) before) =
        subst (λ o. Holds key (put_key o before)) (sym on_key) (put_key-Holds key before present) in
      let content =
        put_text-Holds key (lit "content_length") (lookup (lit "content-length") headers) _ refl
          refl
          (put_text-Holds key (lit "content_type") (lookup (lit "content-type") headers) _ refl refl
            target) in
      let (after, built, last) =
        some_of_bind (put_copy_source decode (lookup (lit "x-amz-copy-source") headers) _) _ fields
          e in
      subst (Holds key) last (
        put_list_prefix-Holds key (lookup (lit "prefix") params) after
          (put_copy_source-Holds key _ _ after content built))
