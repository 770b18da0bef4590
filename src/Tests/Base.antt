-- ===== src/Tests/Base.antt =====
-- Runs of crates/cielo-base.
use cielo.Prelude.{
  ℕ, ◌≡◌, refl, ◌↔◌, ◌⊎◌, ◌<◌, ◌-◌, some, none, List, [], ◌∷◌, ◌++◌, arith, get_elem?,
  if◌then◌else◌, ◌==◌, Elem,
}
use cielo.Prelude.Classes.{codes, nat_eq}
use cielo.Base.Span.{Span}
use cielo.Base.DenseMap
use cielo.Base.DenseMap.{DenseMap}
use cielo.Base.DenseMap.Laws as MapLaws
use cielo.Base.DenseMap.Iteration.{Elem-iter_iff}
use cielo.Base.Diagnostics.{DiagnosticBag, Diagnostic, warning, error, push, extend}
use cielo.Base.Diagnostics.Laws.{IsDense, contents, push_lem, extend_lem}
use cielo.Prelude.HashMap.{get, insert}
use cielo.Base.Ids.{new}
use cielo.Base.Interner.{Interner, empty_interner, intern, resolve}
use cielo.Base.Interner.Laws.{empty_interner-IsValid, resolve-intern, intern-injective}
use cielo.Base.Fixpoint.{fixpoint}
use cielo.Base.Fixpoint.Laws.{iterate, fixpoint_sound, fixpoint_converges}

abbrev sparse : DenseMap ℕ
sparse = record { slots = none ∷ some 7 ∷ none ∷ some 9 ∷ []; len = 2 }

sparse-IsValid : MapLaws.IsValid sparse
sparse-IsValid = record { counted = refl; sized = omega arith }

insert-IsValid_example : MapLaws.IsValid (DenseMap.insert sparse 5 1).0
insert-IsValid_example = MapLaws.insert-IsValid sparse 5 1 (omega arith) sparse-IsValid

get-insert_example :
    DenseMap.get (DenseMap.insert sparse 5 1).0 3
    ≡ (if 5 == 3 then some 1 else DenseMap.get sparse 3)
get-insert_example = MapLaws.get-insert sparse 5 3 1

abbrev twice : List (ℕ × ℕ)
twice = (1, 5) ∷ (0, 6) ∷ (1, 7) ∷ []

get-from_iter_example : DenseMap.get (DenseMap.from_iter twice) 1 ≡ MapLaws.last_value twice 1
get-from_iter_example = MapLaws.get-from_iter twice 1

Elem-iter_iff_example : Elem (3, 9) (DenseMap.iter sparse) ↔ (DenseMap.get sparse 3 ≡ some 9)
Elem-iter_iff_example = Elem-iter_iff sparse 3 9

abbrev here : Span
here = record { source = 0; start = 1; end = 2 }

abbrev one_warning : DiagnosticBag
one_warning = record {
  entries =
      record { id = 0; severity = warning; code = codes "W"; message = codes "odd"; span = here }
      ∷ [];
}

abbrev one_error : DiagnosticBag
one_error = record {
  entries =
      record { id = 0; severity = error; code = codes "E"; message = codes "bad"; span = here }
      ∷ [];
}

abbrev both : DiagnosticBag
both = record {
  entries =
      record { id = 0; severity = warning; code = codes "W"; message = codes "odd"; span = here }
      ∷ record { id = 1; severity = error; code = codes "E"; message = codes "bad"; span = here }
      ∷ [];
}

warning-IsDense : IsDense one_warning
warning-IsDense = (refl, tt)

error-IsDense : IsDense one_error
error-IsDense = (refl, tt)

push_lem_example :
    (bag' : DiagnosticBag) × (d : Diagnostic) × (push one_warning error
        (codes "E")
        (codes "bad")
        here
      ≡ some (bag', 1))
    × (bag'.entries ≡ one_warning.entries ++ d ∷ [])
    × (get_elem? bag'.entries 1 ≡ some d)
    × IsDense bag'
    × (d.severity ≡ error)
    × (d.code ≡ codes "E")
    × (d.message ≡ codes "bad")
    × (d.span ≡ here)
push_lem_example =
    push_lem one_warning error (codes "E") (codes "bad") here warning-IsDense (omega arith)

extend_lem_example :
    (bag' : DiagnosticBag) × (extend one_warning one_error ≡ some bag')
    × IsDense bag'
    × (contents bag'.entries ≡ contents one_warning.entries ++ contents one_error.entries)
extend_lem_example = extend_lem one_warning one_error warning-IsDense error-IsDense (omega arith)

extended : extend one_warning one_error ≡ some both
unfolding extend new
extended = refl

abbrev first : Interner
first = record { symbols = codes "a" ∷ []; lookup = (codes "a", 0) ∷ [] }

abbrev second : Interner
second = record {
  symbols = codes "a" ∷ codes "b" ∷ [];
  lookup = (codes "a", 0) ∷ (codes "b", 1) ∷ [];
}

first_interned : intern empty_interner (codes "a") ≡ some (first, 0)
unfolding intern new get insert
first_interned = refl

second_interned : intern first (codes "b") ≡ some (second, 1)
unfolding intern new get insert
second_interned = refl

found_again : intern first (codes "a") ≡ some (first, 0)
unfolding intern new get insert
found_again = refl

resolve-intern_example : resolve first 0 ≡ some (codes "a")
resolve-intern_example =
    resolve-intern empty_interner first (codes "a") 0 first_interned empty_interner-IsValid

kept : resolve first 0 ≡ some (codes "a")
unfolding resolve
kept = refl

intern-injective_example : codes "a" ≡ codes "a"
intern-injective_example =
    intern-injective empty_interner first first (codes "a") (codes "a") 0 empty_interner-IsValid
      first_interned found_again

abbrev down : ℕ → ℕ
down n = n - 1

lands : fixpoint down 3 5 ≡ some 0
unfolding fixpoint
lands = refl

fixpoint_sound_example : (n : ℕ) × (n < 5) × (0 ≡ iterate down n 3) × (down 0 ≡ 0)
fixpoint_sound_example = fixpoint_sound down 3 5 lands

falls : (s : ℕ) → (down s ≡ s) ⊎ (down s < s)
falls s = ground arith

fixpoint_converges_example : (r : ℕ) × (fixpoint down 3 5 ≡ some r) × (down r ≡ r)
fixpoint_converges_example = fixpoint_converges down (λ s. s) falls 3 5 (omega arith)
