-- ===== src/Notifications/Chunks.antt =====
-- Messages that arrive in pieces.
use Prim.Native.Char.{Char, code}
use Prim.Native.String.{String, ◌++◌ as ◌<>◌}
use text.Mathlib.TextLemmas.{cons-append}
use rustysd.Prelude.{
  ℕ, ◌≤◌, ◌≡◌, refl, ap, sym, ◌∙◌, inl, inr, false, List, [], ◌∷◌, none, some, arith, Bool-cases,
  nat_beq, length,
}
use rustysd.Prelude.Partial.{◌>>=◌, >>=-eq-some}
use rustysd.Prelude.Text.{prepend, split}
use rustysd.Units.Unit.{Service}
use rustysd.Notifications.{handle_notification_message, handle_notifications_from_buffer}
use rustysd.Notifications.Lines.{
  one_char, split-nonempty, consume, with_buffer, consume-with_buffer,
  handle_notifications_from_buffer-consume,
}

-- The parts of a text go on with another text.
abbrev go_on : ℕ → List String → String → List String
go_on n [] y = split n y
go_on n (p ∷ []) y = split n (p <> y)
go_on n (p ∷ q ∷ ps) y = p ∷ go_on n (q ∷ ps) y

go_on-nonempty :
    (n : ℕ) (ps : List String) (y : String)
    → (r : String) × (rs : List String) × (go_on n ps y ≡ r ∷ rs)
go_on-nonempty n [] y = split-nonempty n y
go_on-nonempty n (p ∷ []) y = split-nonempty n (p <> y)
go_on-nonempty n (p ∷ q ∷ ps) y = (p, go_on n (q ∷ ps) y, refl)

prepend-go_on :
    (n : ℕ) (c : Char) (p : String) (ps : List String) (y : String)
    → nat_beq (code c) n ≡ false
    → go_on n (prepend (String.◌∷◌ c "") (p ∷ ps)) y
      ≡ prepend (String.◌∷◌ c "") (go_on n (p ∷ ps) y)
unfolding prepend split
prepend-go_on n c p [] y other =
    let same : ((String.◌∷◌ c "" <> p) <> y) ≡ String.◌∷◌ c (p <> y) =
      ap (λ t. t <> y) (one_char c p) ∙ cons-append c p y in
    ap (split n) same ∙ rw other refl
prepend-go_on n c p (q ∷ ps) y other = refl

split-append : (n : ℕ) (x y : String) → split n (x <> y) ≡ go_on n (split n x) y
unfolding split prepend
split-append n String.[] y = refl
split-append n (String.◌∷◌ c x) y = elim (Bool-cases (nat_beq (code c) n)) [
  | inl here ↦
      let (p, ps, e) = split-nonempty n x in
      let whole : split n (String.◌∷◌ c (x <> y)) ≡ "" ∷ split n (x <> y) = rw here refl in
      let front : split n (String.◌∷◌ c x) ≡ "" ∷ p ∷ ps = rw (here, e) refl in
      ap (split n) (cons-append c x y)
      ∙ whole
      ∙ ap (λ l. "" ∷ l) (split-append n x y ∙ ap (λ l. go_on n l y) e)
      ∙ ap (λ l. go_on n l y) (sym front)
  | inr other ↦
      let (p, ps, e) = split-nonempty n x in
      let whole : split n (String.◌∷◌ c (x <> y)) ≡ prepend (String.◌∷◌ c "") (split n (x <> y)) =
        rw other refl in
      let front : split n (String.◌∷◌ c x) ≡ prepend (String.◌∷◌ c "") (p ∷ ps) =
        rw (other, e) refl in
      ap (split n) (cons-append c x y)
      ∙ whole
      ∙ ap (prepend (String.◌∷◌ c "")) (split-append n x y ∙ ap (λ l. go_on n l y) e)
      ∙ sym (prepend-go_on n c p ps y other)
      ∙ ap (λ l. go_on n l y) (sym front)
]

consume-go_on :
    (n : ℕ) (p : String) (ps : List String) (y : String) (srvc mid : Service)
    → consume (p ∷ ps) srvc ≡ some mid
    → consume (split n (mid.notifications_buffer <> y)) mid ≡ consume (go_on n (p ∷ ps) y) srvc
consume-go_on n p [] y srvc mid e =
    let same : with_buffer p srvc ≡ mid = ground arith in
    let (r, rs, f) = split-nonempty n (p <> y) in
    ap (λ (m : Service). consume (split n (m.notifications_buffer <> y)) m) (sym same)
    ∙ ap (λ l. consume l (with_buffer p srvc)) f
    ∙ consume-with_buffer r p rs srvc
    ∙ ap (λ l. consume l srvc) (sym f)
consume-go_on n p (q ∷ ps) y srvc mid e =
    let (next, went, more) = >>=-eq-some (handle_notification_message p srvc) _ e in
    let (r, rs, f) = go_on-nonempty n (q ∷ ps) y in
    let here : consume (p ∷ r ∷ rs) srvc ≡ consume (r ∷ rs) next =
      ap (λ o. o >>= consume (r ∷ rs)) went in
    consume-go_on n q ps y next mid more
    ∙ ap (λ l. consume l next) f
    ∙ sym here
    ∙ ap (λ l. consume (p ∷ l) srvc) (sym f)

-- A text that arrives in two pieces is handled as if it had arrived at once, whatever the place of the cut: first
-- what is in the buffer, without a panic, and then what is left of it with the second piece.
pub handle_notifications_from_buffer-append :
    (fuel fuel' fuel'' : ℕ) (x y : String) (srvc mid : Service)
    → length (split b'\n' x) ≤ fuel
    → length (split b'\n' (mid.notifications_buffer <> y)) ≤ fuel'
    → length (split b'\n' (x <> y)) ≤ fuel''
    → handle_notifications_from_buffer fuel (with_buffer x srvc) ≡ some (some mid)
    → handle_notifications_from_buffer fuel' (with_buffer (mid.notifications_buffer <> y) mid)
      ≡ handle_notifications_from_buffer fuel'' (with_buffer (x <> y) srvc)
handle_notifications_from_buffer-append fuel fuel' fuel'' x y srvc mid h h' h'' went =
    let (p, ps, e) = split-nonempty b'\n' x in
    let (q, qs, f) = split-nonempty b'\n' (x <> y) in
    let buffer = mid.notifications_buffer <> y in
    let (r, rs, g) = split-nonempty b'\n' buffer in
    let first = handle_notifications_from_buffer-consume fuel (with_buffer x srvc) h in
    let whole = handle_notifications_from_buffer-consume fuel'' (with_buffer (x <> y) srvc) h'' in
    let second = handle_notifications_from_buffer-consume fuel' (with_buffer buffer mid) h' in
    let done : consume (p ∷ ps) srvc ≡ some mid =
      sym (consume-with_buffer p x ps srvc)
      ∙ ap (λ l. consume l (with_buffer x srvc)) (sym e)
      ∙ some_inj (sym first ∙ went) in
    let parts = split-append b'\n' x y ∙ ap (λ l. go_on b'\n' l y) e in
    second
    ∙ ap some (
        ap (λ l. consume l (with_buffer buffer mid)) g
        ∙ consume-with_buffer r buffer rs mid
        ∙ ap (λ l. consume l mid) (sym g)
        ∙ consume-go_on b'\n' p ps y srvc mid done
        ∙ ap (λ l. consume l srvc) (sym parts ∙ f)
        ∙ sym (consume-with_buffer q (x <> y) qs srvc)
        ∙ ap (λ l. consume l (with_buffer (x <> y) srvc)) (sym f))
    ∙ sym whole
  where
    some_inj : {A : Type 0} {a b : A} → some a ≡ some b → a ≡ b
    some_inj {a = a} e = ap (λ o. elim o [ none ↦ a | some v ↦ v ]) e
