-- ===== src/Base/Interner/Laws.antt =====
-- crates/cielo-base/src/symbols.rs: `intern` and `resolve` together.
use cielo.Prelude.{
  ℕ, ◌+◌, ◌^◌, ◌≤◌, ◌<◌, ◌≡◌, ◌∙◌, ◌⊎◌, inl, inr, none, some, [], ◌∷◌, ◌++◌, arith, length,
  length-append, get_elem?, get_elem?-append_left, lt-length_of_get_elem?, get_elem?-concat_self,
  get_elem?-concat_cases, Bool-cases, Option-cases, >>=-eq-some,
}
use cielo.Prelude.Classes.{Text, text_eq, text_beq, text_beq_iff}
use cielo.Prelude.HashMap.{get, get_empty, insert, get-insert}
use cielo.Base.Ids
use cielo.Base.Interner.{Interner, empty_interner, intern, resolve}

-- The table and the list of symbols say the same.
pub record IsValid (it : Interner) : Type 0 where
  pub listed : (t : Text) (id : ℕ) → get it.lookup t ≡ some id → get_elem? it.symbols id ≡ some t
  pub found : (t : Text) (id : ℕ) → get_elem? it.symbols id ≡ some t → get it.lookup t ≡ some id

pub empty_interner-IsValid : IsValid empty_interner
empty_interner-IsValid = record {
  listed = λ t id h. cc (get_empty {V = ℕ} t);
  found = λ t id h. cc;
}

-- the interner after a new text
abbrev extended : Interner → Text → Interner
extended it t = record {
  symbols = it.symbols ++ t ∷ [];
  lookup = insert it.lookup t (length it.symbols);
}

abbrev Found : Interner → Interner → Text → ℕ → Type 0
Found it it' t id = (it' ≡ it) × (get it.lookup t ≡ some id)

abbrev Appended : Interner → Interner → Text → ℕ → Type 0
Appended it it' t id = (get it.lookup t ≡ none) × (id ≡ length it.symbols) × (it' ≡ extended it t)

-- Interning a text either finds its id or appends it at the next one.
intern-cases :
    (it it' : Interner) (t : Text) (id : ℕ)
    → intern it t ≡ some (it', id)
    → Found it it' t id ⊎ Appended it it' t id
unfolding intern
intern-cases it it' t id h = elim (Option-cases (get it.lookup t)) [
  | inl new ↦
      let (j, made, ends) = >>=-eq-some (Ids.new (length it.symbols)) _ (rw (new, intern) at h) in
      let (same, _) = Ids.lt_of_new (length it.symbols) made in
      inr (new, ground arith, ground arith)
  | inr (j, old) ↦ inl (ground arith, ground arith)
]

module _ (it it' : Interner) (t : Text) (id : ℕ) (ends : intern it t ≡ some (it', id)) where
  -- Where a valid interner interned a text at an id, resolving the id gives the text.
  pub resolve-intern : IsValid it → resolve it' id ≡ some t
  unfolding resolve
  resolve-intern v = elim (intern-cases it it' t id ends) [
    | inl (same, old) ↦ rw same (v.listed t id old)
    | inr (new, at_end, grown) ↦ rw (grown, at_end) (get_elem?-concat_self it.symbols t)
  ]

  -- An id that resolves to a text before another text is interned resolves to the same text after.
  pub resolve_kept : (j : ℕ) {s : Text} → resolve it j ≡ some s → resolve it' j ≡ some s
  unfolding resolve
  resolve_kept j {s} h = elim (intern-cases it it' t id ends) [
    | inl (same, old) ↦ rw same h
    | inr (new, at_end, grown) ↦
        rw grown
          (get_elem?-append_left it.symbols (t ∷ []) j (lt-length_of_get_elem? it.symbols j h) ∙ h)
  ]

  extended-IsValid : IsValid it → get it.lookup t ≡ none → IsValid (extended it t)
  extended-IsValid v new =
      let n = length it.symbols in
      record {
        listed = λ s j h. elim (Bool-cases (text_beq t s)) [
          | inl same ↦
              let e = (text_beq_iff t s).0 same in
              let at_end : j ≡ n = ground (arith, get-insert it.lookup t s n) in
              rw (at_end, ← e) (get_elem?-concat_self it.symbols t)
          | inr other ↦
              let old : get it.lookup s ≡ some j = ground (arith, get-insert it.lookup t s n) in
              let found_at = v.listed s j old in
              get_elem?-append_left it.symbols (t ∷ []) j
                (lt-length_of_get_elem? it.symbols j found_at)
              ∙ found_at
        ];
        found = λ s j h. elim (get_elem?-concat_cases it.symbols t s j h) [
          | inl old ↦ ground (arith, get-insert it.lookup t s n, text_beq_iff t s, v.found s j old)
          | inr (e, same) ↦ ground (arith, get-insert it.lookup t s n, text_beq_iff t s)
        ];
      }

  pub intern-IsValid : IsValid it → IsValid it'
  intern-IsValid v = elim (intern-cases it it' t id ends) [
    | inl (same, old) ↦ rw same v
    | inr (new, at_end, grown) ↦ rw grown (extended-IsValid v new)
  ]

  -- After a valid interner interned a text at an id, interning the text again finds the same id and
  -- changes nothing.
  pub intern_again : IsValid it → intern it' t ≡ some (it', id)
  unfolding intern resolve
  intern_again v = rw ((intern-IsValid v).found t id (resolve-intern v), intern)

-- Below the limit of 32 bits interning succeeds.
pub intern_returns :
    (it : Interner) (t : Text)
    → length it.symbols < 2 ^ 32
    → (it' : Interner) × (id : ℕ) × (intern it t ≡ some (it', id))
      × (length it'.symbols ≤ length it.symbols + 1)
unfolding intern
intern_returns it t room = elim (Option-cases (get it.lookup t)) [
  | inl new ↦ (
    extended it t,
    length it.symbols,
    rw (new, intern) (rw (Ids.new-eq_of_lt (length it.symbols) room)),
    omega (arith, length-append it.symbols (t ∷ [])),
  )
  | inr (j, old) ↦ (it, j, rw (old, intern), omega arith)
]

-- Two texts that a valid interner interns one after the other at one id are one text.
pub intern-injective :
    (it it' it'' : Interner) (a b : Text) (i : ℕ)
    → IsValid it
    → intern it a ≡ some (it', i)
    → intern it' b ≡ some (it'', i)
    → a ≡ b
intern-injective it it' it'' a b i v ha hb =
    let at_a = resolve_kept it' it'' b i hb i (resolve-intern it it' a i ha v) in
    let at_b = resolve-intern it' it'' b i hb (intern-IsValid it it' a i ha v) in cc
