-- ===== src/Base/Diagnostics.antt =====
-- crates/cielo-base/src/diagnostics.rs: the bag of diagnostics, whose entries are numbered densely.
pub mod Laws
use cielo.Prelude.{
  ℕ, ◌+◌, Bool, true, false, Option, none, some, List, [], ◌∷◌, ◌++◌, length, any, ◌>>=◌,
}
use cielo.Prelude.Classes.{Text}
use cielo.Base.Ids
use cielo.Base.Span.{Span}

pub data Severity : Type 0 where
  error warning note : Severity

pub record Diagnostic : Type 0 where
  pub id : ℕ
  pub severity : Severity
  pub code : Text
  pub message : Text
  pub span : Span

pub record ErrorNode : Type 0 where
  pub span : Span
  pub message : Text
  pub diagnostic : ℕ

pub record DiagnosticBag : Type 0 where
  pub entries : List Diagnostic

abbrev pub empty_bag : DiagnosticBag
empty_bag = record { entries = [] }

-- `none` is the assertion of `DiagnosticId::new`.
unfoldable pub push : DiagnosticBag → Severity → Text → Text → Span → Option (DiagnosticBag × ℕ)
push bag severity code message span = do
  id ← Ids.new (length bag.entries)
  let entry : Diagnostic = record {
    id = id;
    severity = severity;
    code = code;
    message = message;
    span = span;
  }
  some (record { entries = bag.entries ++ entry ∷ [] }, id)

unfoldable pub push_error : DiagnosticBag → Text → Text → Span → Option (DiagnosticBag × ℕ)
unfolding push
push_error bag = push bag error

unfoldable pub push_warning : DiagnosticBag → Text → Text → Span → Option (DiagnosticBag × ℕ)
unfolding push
push_warning bag = push bag warning

unfoldable pub push_note : DiagnosticBag → Text → Text → Span → Option (DiagnosticBag × ℕ)
unfolding push
push_note bag = push bag note

unfoldable pub error_node : DiagnosticBag → Text → Text → Span → Option (DiagnosticBag × ErrorNode)
unfolding push_error
error_node bag code message span = do
  (bag', id) ← push_error bag code message span
  some (bag', record { span = span; message = message; diagnostic = id })

abbrev pub is_error : Severity → Bool
is_error error = true
is_error _ = false

unfoldable pub has_errors : DiagnosticBag → Bool
has_errors bag = any (λ entry. is_error entry.severity) bag.entries

-- the loop of `extend`, under the offset taken before it
unfoldable pub extend_entries : ℕ → DiagnosticBag → List Diagnostic → Option DiagnosticBag
extend_entries offset bag [] = some bag
extend_entries offset bag (entry ∷ rest) = Ids.new (entry.id + offset) >>= λ id.
    extend_entries offset (record { entries = bag.entries ++ record entry { id = id } ∷ [] }) rest

unfoldable pub extend : DiagnosticBag → DiagnosticBag → Option DiagnosticBag
unfolding extend_entries
extend bag other = extend_entries (length bag.entries) bag other.entries
