-- ===== src/Ledger/State/Replay.antt =====
-- What the ledger reads back after a line has been appended.
use mathlib.Core.List.{append_assoc}
use clx_preprocessing.Chars.{Text, newline}
use clx_preprocessing.Prelude.{
  List, [], ap, arith, false, inl, inr, length, none, refl, some, suc, sym, true, ℕ, ◌++◌, ◌+◌, ◌∙◌,
  ◌∷◌, ◌≡◌, ◌⊎◌,
}
use clx_preprocessing.Json.{Fields, Json, obj}
use clx_preprocessing.Result.{Error, Result-cases, err, ok, value_error}
use clx_preprocessing.Ledger.{Python}
use clx_preprocessing.Ledger.Lines.{
  IsLine, is_blank, is_break, splitlines, splitlines-append, splitlines_first, splitlines_line,
}
use clx_preprocessing.Ledger.Event.{LedgerEntry, entry_from_event}
use clx_preprocessing.Ledger.State.{
  JsonModule, States, append, corrupt, fold, latest_unlocked, read_into, read_line, set_state,
  states,
}

-- The text ends with a newline, if it has any character.
abbrev pub IsClosed : Text → Type 0
IsClosed text = (text ≡ []) ⊎ ((t : Text) × (text ≡ t ++ newline ∷ []))

-- `json` writes this event as one line and reads it back, the order of its keys left aside.
pub record IsWritten (js : JsonModule) (e : Fields) : Type 0 where
  pub line : IsLine (js.dumps e)
  pub not_blank : is_blank (js.dumps e) ≡ false
  pub read_back : js.loads (js.dumps e) ≡ some (obj e)

-- The lines of a closed text stay when more is written.
splitlines_closed :
    (text : Text)
    → IsClosed text
    → (s : Text) → splitlines (text ++ s) ≡ splitlines text ++ splitlines s
splitlines_closed text (inl e) s = unfold splitlines in rw (e) refl
splitlines_closed text (inr (t, e)) s =
    rw (e) (ap splitlines (append_assoc t (newline ∷ []) s) ∙ splitlines-append t s)

module _ (py : Python) (js : JsonModule) where
  fold_ok :
      (n : ℕ) (line : Text) (lines : List Text) (st after : States)
      → read_into py js line st ≡ ok after
      → fold py js n (line ∷ lines) st ≡ fold py js (suc n) lines after
  unfolding fold
  fold_ok n line lines st after h = rw (h, fold) refl

  fold_err :
      (n : ℕ) (line : Text) (lines : List Text) (st : States) (e : Error)
      → read_into py js line st ≡ err e
      → fold py js n (line ∷ lines) st ≡ corrupt n
  unfolding fold
  fold_err n line lines st e h = rw (h, fold) refl

  fold-append :
      (n : ℕ) (lines more : List Text) (st after : States)
      → fold py js n lines st ≡ states after
      → fold py js n (lines ++ more) st ≡ fold py js (length lines + n) more after
  unfolding fold
  fold-append n [] more st after h =
      let e : st ≡ after = ground (arith, h) in
      ap (fold py js n more) e ∙ ap (λ m. fold py js m more after) (omega arith)
  fold-append n (line ∷ lines) more st after h = elim (Result-cases (read_into py js line st)) [
    | inl (mid, e) ↦
        let k : fold py js (suc n) lines mid ≡ states after =
          sym (fold_ok n line lines st mid e) ∙ h in
        fold_ok n line (lines ++ more) st mid e
        ∙ fold-append (suc n) lines more mid after k
        ∙ ap (λ m. fold py js m more after) (omega arith)
    | inr (why, e) ↦
        let k : corrupt n ≡ states after = sym (fold_err n line lines st why e) ∙ h in cc
  ]

  read_line-some :
      (l : Text) (v : Json) → js.loads l ≡ some v → read_line py js l ≡ entry_from_event py v
  unfolding read_line
  read_line-some l v h = rw (h, read_line) refl

  read_line-none : (l : Text) → js.loads l ≡ none → read_line py js l ≡ err value_error
  unfolding read_line
  read_line-none l h = rw (h, read_line) refl

  read_into-event :
      (st : States) (e : Fields) (entry : LedgerEntry)
      → IsWritten js e
      → entry_from_event py (obj e) ≡ ok entry
      → read_into py js (js.dumps e) st ≡ ok (set_state entry st)
  unfolding read_into
  read_into-event st e entry w k =
      rw (w.not_blank, read_line-some (js.dumps e) (obj e) w.read_back, k) refl

  pub latest-append :
      (text : Text) (st : States) (e : Fields) (entry : LedgerEntry)
      → IsClosed text
      → latest_unlocked py js text ≡ states st
      → IsWritten js e
      → entry_from_event py (obj e) ≡ ok entry
      → latest_unlocked py js (append py js e text) ≡ states (set_state entry st)
  unfolding latest_unlocked append
  latest-append text st e entry closed h w k =
      let line : splitlines (js.dumps e ++ newline ∷ []) ≡ js.dumps e ∷ [] =
        splitlines_line (js.dumps e) w.line in
      ap (λ l. fold py js 1 l [])
        (splitlines_closed text closed (js.dumps e ++ newline ∷ [])
          ∙ ap (λ l. splitlines text ++ l) line)
      ∙ fold-append 1 (splitlines text) (js.dumps e ∷ []) [] st h
      ∙ fold_ok (length (splitlines text) + 1) (js.dumps e) [] st (set_state entry st)
          (read_into-event st e entry w k)
      ∙ (unfold fold in refl)

  pub append-IsClosed : (e : Fields) (text : Text) → IsClosed (append py js e text)
  unfolding append
  append-IsClosed e text =
      inr (text ++ js.dumps e, sym (append_assoc text (js.dumps e) (newline ∷ [])))

  -- Where the text of an event holds a line boundary of `str.splitlines`, and what stands before it
  -- is neither blank nor JSON, the ledger can no longer be read once the event is appended.
  pub append-corrupt :
      (text : Text) (st : States) (e : Fields) (part : Text) (b : ℕ) (rest : Text)
      → IsClosed text
      → latest_unlocked py js text ≡ states st
      → js.dumps e ≡ part ++ b ∷ rest
      → IsLine part
      → is_break b ≡ true
      → is_blank part ≡ false
      → js.loads part ≡ none
      → latest_unlocked py js (append py js e text) ≡ corrupt (length (splitlines text) + 1)
  unfolding latest_unlocked append
  append-corrupt text st e part b rest closed h d line brk nb bad =
      ap (λ l. fold py js 1 l [])
        (ap (λ l. splitlines (text ++ (l ++ newline ∷ []))) d
          ∙ splitlines_closed text closed ((part ++ b ∷ rest) ++ newline ∷ [])
          ∙ ap (λ l. splitlines text ++ splitlines l) (append_assoc part (b ∷ rest) (newline ∷ []))
          ∙ ap (λ l. splitlines text ++ l)
              (splitlines_first part b (rest ++ newline ∷ []) line brk))
      ∙ fold-append 1 (splitlines text) (part ∷ splitlines (rest ++ newline ∷ [])) [] st h
      ∙ fold_err (length (splitlines text) + 1) part (splitlines (rest ++ newline ∷ [])) st
          value_error (unfold read_into in rw (nb, read_line-none part bad) refl)
