-- ===== src/Base/Diagnostics/Laws.antt =====
-- crates/cielo-base/src/diagnostics.rs: the ids of a bag that is pushed to and extended.
use mathlib.Core.List.{append-nil, append_assoc}
use cielo.Prelude.{
  ℕ, suc, ◌+◌, ◌^◌, ◌≤◌, ◌<◌, ◌≡◌, refl, subst, ap, ◌||◌, some, List, [], ◌∷◌, ◌++◌, arith, length,
  length-append, any, get_elem?, get_elem?-concat_self,
}
use cielo.Prelude.Classes.{Text}
use cielo.Base.Ids
use cielo.Base.Span.{Span}
use cielo.Base.Diagnostics.{
  Severity, error, push_error, Diagnostic, DiagnosticBag, push, has_errors, is_error, extend,
  extend_entries,
}

-- The ids of the entries are `n`, `n + 1`, ….
abbrev pub IsDenseFrom : ℕ → List Diagnostic → Type 0
IsDenseFrom n [] = Unit
IsDenseFrom n (d ∷ ds) = (d.id ≡ n) × IsDenseFrom (suc n) ds

abbrev pub IsDense : DiagnosticBag → Type 0
IsDense bag = IsDenseFrom 0 bag.entries

IsDenseFrom-concat :
    (n : ℕ) (ds : List Diagnostic) (d : Diagnostic)
    → IsDenseFrom n ds
    → d.id ≡ n + length ds
    → IsDenseFrom n (ds ++ d ∷ [])
IsDenseFrom-concat n [] d h e = (omega arith, tt)
IsDenseFrom-concat n (x ∷ ds) d h e = (h.0, IsDenseFrom-concat (suc n) ds d h.1 (omega arith))

-- Below the limit of 32 bits a push gives the next id, at which the diagnostic is found, keeps the
-- earlier entries and keeps the ids dense.
pub push_lem :
    (bag : DiagnosticBag) (severity : Severity) (code message : Text) (span : Span)
    → IsDense bag
    → length bag.entries < 2 ^ 32
    → (bag' : DiagnosticBag) × (d : Diagnostic) × (push bag severity code message span
        ≡ some (bag', length bag.entries))
      × (bag'.entries ≡ bag.entries ++ d ∷ [])
      × (get_elem? bag'.entries (length bag.entries) ≡ some d)
      × IsDense bag'
      × (d.severity ≡ severity)
      × (d.code ≡ code)
      × (d.message ≡ message)
      × (d.span ≡ span)
unfolding push
push_lem bag severity code message span dense room =
    let d : Diagnostic = record {
      id = length bag.entries;
      severity = severity;
      code = code;
      message = message;
      span = span;
    } in
    (
      record { entries = bag.entries ++ d ∷ [] },
      d,
      rw (Ids.new-eq_of_lt (length bag.entries) room),
      refl,
      get_elem?-concat_self bag.entries d,
      IsDenseFrom-concat 0 bag.entries d dense (omega arith),
      refl,
      refl,
      refl,
      refl,
    )

-- what a diagnostic says, without its number
abbrev pub content : Diagnostic → Severity × Text × Text × Span
content d = (d.severity, d.code, d.message, d.span)

abbrev pub contents : List Diagnostic → List (Severity × Text × Text × Span)
contents [] = []
contents (d ∷ ds) = content d ∷ contents ds

contents-append : (xs ys : List Diagnostic) → contents (xs ++ ys) ≡ contents xs ++ contents ys
contents-append [] ys = refl
contents-append (x ∷ xs) ys = ap (◌∷◌ (content x)) (contents-append xs ys)

-- From entries with the ids `n`, `n + 1`, … and a bag with `offset + n` entries the loop succeeds.
extend_entries_lem :
    (offset n : ℕ) (bag : DiagnosticBag) (ds : List Diagnostic)
    → IsDense bag
    → length bag.entries ≡ offset + n
    → IsDenseFrom n ds
    → length bag.entries + length ds ≤ 2 ^ 32
    → (bag' : DiagnosticBag) × (extend_entries offset bag ds ≡ some bag')
      × IsDense bag'
      × (contents bag'.entries ≡ contents bag.entries ++ contents ds)
unfolding extend_entries
extend_entries_lem offset n bag [] dense size h fits = (bag, refl, dense, rw append-nil)
extend_entries_lem offset n bag (d ∷ ds) dense size h fits =
    let small : d.id + offset < 2 ^ 32 = omega arith in
    let d' : Diagnostic = record d { id = d.id + offset } in
    let longer = length-append bag.entries (d' ∷ []) in
    let (bag', ends, dense', kept) =
      extend_entries_lem offset (suc n) (record { entries = bag.entries ++ d' ∷ [] }) ds
        (IsDenseFrom-concat 0 bag.entries d' dense (omega arith)) (omega arith) h.1 (omega arith) in
    (
      bag',
      rw (Ids.new-eq_of_lt (d.id + offset) small) ends,
      dense',
      rw kept (simp (contents-append, append_assoc)),
    )

-- Where the bags are dense and fit 32 bits together, `extend` succeeds: the ids stay dense, and the
-- result says what the first bag says and then what the second says.
pub extend_lem :
    (bag other : DiagnosticBag)
    → IsDense bag
    → IsDense other
    → length bag.entries + length other.entries ≤ 2 ^ 32
    → (bag' : DiagnosticBag) × (extend bag other ≡ some bag')
      × IsDense bag'
      × (contents bag'.entries ≡ contents bag.entries ++ contents other.entries)
unfolding extend
extend_lem bag other dense dense' fits =
    extend_entries_lem (length bag.entries) 0 bag other.entries dense (omega arith) dense' fits

has_errors-contents :
    (a b c : List Diagnostic)
    → contents c ≡ contents a ++ contents b
    → any (λ entry. is_error entry.severity) c
      ≡ (any (λ entry. is_error entry.severity) a || any (λ entry. is_error entry.severity) b)
has_errors-contents [] [] [] h = refl
has_errors-contents [] [] (z ∷ c) h = cc
has_errors-contents [] (y ∷ b) [] h = cc
has_errors-contents [] (y ∷ b) (z ∷ c) h = ground (arith, has_errors-contents [] b c)
has_errors-contents (x ∷ a) b [] h = cc
has_errors-contents (x ∷ a) b (z ∷ c) h = ground (arith, has_errors-contents a b c)

-- A bag that `extend` returns has an error exactly when one of the two bags has.
pub has_errors-extend :
    (bag other bag' : DiagnosticBag)
    → IsDense bag
    → IsDense other
    → length bag.entries + length other.entries ≤ 2 ^ 32
    → extend bag other ≡ some bag'
    → has_errors bag' ≡ (has_errors bag || has_errors other)
unfolding has_errors
has_errors-extend bag other bag' dense dense' fits h =
    let (c, ends, _, said) = extend_lem bag other dense dense' fits in
    let same : c ≡ bag' = cc in
    has_errors-contents bag.entries other.entries bag'.entries (
      subst
        (λ (z : DiagnosticBag). contents z.entries ≡ contents bag.entries ++ contents other.entries)
        same said)

-- Below the limit of 32 bits an error is pushed, and the bag has one entry more.
pub push_error_returns :
    (bag : DiagnosticBag) (code message : Text) (span : Span)
    → length bag.entries < 2 ^ 32
    → (bag' : DiagnosticBag) × (id : ℕ) × (push_error bag code message span ≡ some (bag', id))
      × (length bag'.entries ≡ length bag.entries + 1)
unfolding push_error
push_error_returns bag code message span room =
    let d : Diagnostic = record {
      id = length bag.entries;
      severity = error;
      code = code;
      message = message;
      span = span;
    } in
    (
      record { entries = bag.entries ++ d ∷ [] },
      length bag.entries,
      rw (Ids.new-eq_of_lt (length bag.entries) room),
      length-append bag.entries (d ∷ []),
    )
