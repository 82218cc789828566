-- ===== src/History/Statuses.antt =====
-- What `log_status` of lib/data/historical_data.cpp logs.
use calm_trading_system.Base.{
  String, ◌≡◌, refl, sym, ap, ◌∙◌, [], ◌∷◌, ok, err, undefined_behaviour, Map, ◌>>=◌,
}
use Prim.Native.Char.{Char}
use Prim.Native.String.append
use text.Mathlib.TextLemmas.{append_assoc}
use calm_trading_system.Utils.{◌&◌}
use calm_trading_system.History.{HistBarStatus}
use calm_trading_system.History.Config.{status_number, status_text, pop_back, log_status}

pop_back-last : (s : String) (c : Char) → pop_back (s & String.◌∷◌ c "") ≡ ok s
unfolding pop_back
pop_back-last String.[] c = rw (append.nil (String.◌∷◌ c "")) refl
pop_back-last (String.◌∷◌ x String.[]) c =
    rw (append.cons x "" (String.◌∷◌ c ""), append.nil (String.◌∷◌ c "")) refl
pop_back-last (String.◌∷◌ x (String.◌∷◌ y s)) c =
    let rest = pop_back-last (String.◌∷◌ y s) c in
    rw (append.cons x (String.◌∷◌ y s) (String.◌∷◌ c ""), append.cons y s (String.◌∷◌ c ""))
      (ap (λ r. r >>= (λ t. ok (String.◌∷◌ x t)))
        (ap pop_back (sym (append.cons y s (String.◌∷◌ c ""))) ∙ rest))

-- The entries with a comma and a space between them.
abbrev pub joined : Map String HistBarStatus → String
joined [] = ""
joined ((k, v) ∷ []) = k & ":" & status_number v
joined ((k, v) ∷ (j, w) ∷ status) = k & ":" & status_number v & ", " & joined ((j, w) ∷ status)

-- An entry, and what follows it.
entry_assoc : (k n t : String) → (k & ":" & n) & t ≡ k & ":" & n & t
entry_assoc k n t = append_assoc k (":" & n) t ∙ ap (λ l. k & l) (append_assoc ":" n t)

status_text-joined :
    (k : String) (v : HistBarStatus) (status : Map String HistBarStatus)
    → status_text ((k, v) ∷ status) ≡ joined ((k, v) ∷ status) & ", "
unfolding status_text
status_text-joined k v [] = sym (entry_assoc k (status_number v) ", ")
status_text-joined k v ((j, w) ∷ status) =
    let later = joined ((j, w) ∷ status) in
    ap (λ t. k & ":" & status_number v & ", " & t) (status_text-joined j w status)
    ∙ sym (
        ap (λ t. t & ", ") (sym (entry_assoc k (status_number v) (", " & later)))
        ∙ append_assoc (k & ":" & status_number v) (", " & later) ", "
        ∙ entry_assoc k (status_number v) ((", " & later) & ", ")
        ∙ ap (λ t. k & ":" & status_number v & t) (append_assoc ", " later ", "))

-- If some symbol has a status, `log_status` logs the symbols and their statuses with a comma and a space between
-- them. If none has, it takes a character off an empty text, for which C++ promises nothing.
pub log_status_joins :
    (status : Map String HistBarStatus)
    → log_status status
      ≡ elim status [ [] ↦ err undefined_behaviour | e ∷ rest ↦ ok (joined (e ∷ rest)) ]
unfolding log_status
log_status_joins [] = refl
log_status_joins ((k, v) ∷ status) =
    let all = joined ((k, v) ∷ status) in
    let text : status_text ((k, v) ∷ status) ≡ (all & ",") & " " =
      status_text-joined k v status ∙ sym (append_assoc all "," " ") in
    ap (λ t. pop_back t >>= pop_back) text
    ∙ ap (λ r. r >>= pop_back) (pop_back-last (all & ",") " ")
    ∙ pop_back-last all ","
