-- ===== src/Policy/Decides.antt =====
-- Tests that thread a state, and what it means that one decides a statement: from every state with
-- the invariant it answers true exactly when the statement holds, and it keeps the invariant.
use purge_api_gateway.Base.{
  Bool, true, false, not, ◌≡◌, ◌↔◌, ◌⊎◌, inl, inr, if◌then◌else◌, Bool-cases, refl, sym, ◌∙◌,
}
use mathlib.Core.Bool.{false≢true}

abbrev pub Test : Type 0 → Type 0
Test S = S → Bool × S

module _ {S : Type 0} where
  abbrev pub pure : Bool → Test S
  pure b s = (b, s)

  infixl 5 ◌>>=◌
  abbrev pub ◌>>=◌ : Test S → (Bool → Test S) → Test S
  ◌>>=◌ m f s = f (m s).0 (m s).1

  pub record Decides (I : S → Type 0) (m : Test S) (P : Type 0) : Type 0 where
    pub run : (s : S) → I s → (((m s).0 ≡ true) ↔ P) × I (m s).1

module _ {S : Type 0} {I : S → Type 0} where
  pub Decides-pure : {P : Type 0} (b : Bool) → (b ≡ true) ↔ P → Decides I (pure b) P
  Decides-pure b h = record { run = λ s i. (h, i) }

  pub Decides-iff : {P Q : Type 0} {m : Test S} → P ↔ Q → Decides I m P → Decides I m Q
  Decides-iff e d = record {
    run = λ s i.
        let (answer, kept) = d.run s i in ((λ h. e.0 (answer.0 h), λ q. answer.1 (e.1 q)), kept);
  }

  -- `if (test) return true; …rest`
  pub Decides-or :
      {P Q : Type 0} (m n : Test S)
      → Decides I m P
      → Decides I n Q
      → Decides I (m >>= λ b. if b then pure true else n) (P ⊎ Q)
  Decides-or m n d e = record {
    run = λ s i.
        let (answer, kept) = d.run s i in
        elim (Bool-cases (m s).0) [
          | inl yes_m ↦ rw yes_m ((λ _. inl (answer.0 yes_m), λ _. refl), kept)
          | inr no_m ↦
              let (later, kept') = e.run (m s).1 kept in
              rw no_m (
                (
                  λ h. inr (later.0 h),
                  λ c. elim c [
                    | inl p ↦ absurd (false≢true (sym no_m ∙ answer.1 p))
                    | inr q ↦ later.1 q
                  ],
                ),
                kept',
              )
        ];
  }

  -- `if (!test) return false; …rest`
  pub Decides-and :
      {P Q : Type 0} (m n : Test S)
      → Decides I m P
      → Decides I n Q
      → Decides I (m >>= λ b. if b then n else pure false) (P × Q)
  Decides-and m n d e = record {
    run = λ s i.
        let (answer, kept) = d.run s i in
        elim (Bool-cases (m s).0) [
          | inl yes_m ↦
              let (later, kept') = e.run (m s).1 kept in
              rw yes_m ((λ h. (answer.0 yes_m, later.0 h), λ c. later.1 c.1), kept')
          | inr no_m ↦ rw no_m (
            (λ h. absurd (false≢true h), λ c. absurd (false≢true (sym no_m ∙ answer.1 c.0))),
            kept,
          )
        ];
  }

  -- `!test`
  pub Decides-not :
      {P : Type 0} (m : Test S) → Decides I m P → Decides I (m >>= λ b. pure (not b)) (¬ P)
  Decides-not m d = record {
    run = λ s i.
        let (answer, kept) = d.run s i in
        elim (Bool-cases (m s).0) [
          | inl yes_m ↦
              rw yes_m ((λ h. absurd (false≢true h), λ c. absurd (c (answer.0 yes_m))), kept)
          | inr no_m ↦ rw no_m ((λ _. λ p. false≢true (sym no_m ∙ answer.1 p), λ _. refl), kept)
        ];
  }

  -- `if (test) …first; else …second`: each branch may use what the test has found.
  pub Decides-if :
      {P Q : Type 0} (m n k : Test S)
      → Decides I m P
      → (P → Decides I n Q)
      → ((¬ P) → Decides I k Q)
      → Decides I (m >>= λ b. if b then n else k) Q
  Decides-if m n k d e f = record {
    run = λ s i.
        let (answer, kept) = d.run s i in
        elim (Bool-cases (m s).0) [
          | inl yes_m ↦ rw yes_m ((e (answer.0 yes_m)).run (m s).1 kept)
          | inr no_m ↦ rw no_m ((f (λ p. false≢true (sym no_m ∙ answer.1 p))).run (m s).1 kept)
        ];
  }
