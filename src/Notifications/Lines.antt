-- ===== src/Notifications/Lines.antt =====
-- The messages in a buffer are its lines.
use mathlib.Core.Option
use Prim.Native.Char.{Char, code}
use Prim.Native.String.{String, ◌++◌ as ◌<>◌}
use text.Mathlib.Text.{◌==◌ as str_eq}
use rustysd.Prelude.{
  ℕ, zero, suc, ◌≤◌, ◌≡◌, refl, ap, sym, ◌∙◌, inl, inr, List, [], ◌∷◌, Option, none, some, arith,
  Bool-cases, Option-cases, nat_beq, length, subst,
}
use rustysd.Prelude.Partial.{◌>>=◌}
use text.Mathlib.TextLemmas.{cons-append, nil-append}
use rustysd.Prelude.Text.{prepend, split, split_at_char, put_first}
use rustysd.Units.Unit.{Service}
use rustysd.Notifications.{
  push_status, handle_parts, handle_notification_message, drop_first,
  handle_notifications_from_buffer,
}

pub one_char : (c : Char) (s : String) → (String.◌∷◌ c "" <> s) ≡ String.◌∷◌ c s
one_char c s = cons-append c "" s ∙ ap (String.◌∷◌ c) (nil-append s)

split-none : (n : ℕ) (s : String) → split_at_char n s ≡ none → split n s ≡ s ∷ []
unfolding split split_at_char put_first prepend
split-none n String.[] e = refl
split-none n (String.◌∷◌ c s) e = elim (Bool-cases (nat_beq (code c) n)) [
  | inl here ↦ absurd (ground arith)
  | inr other ↦ elim (Option-cases (split_at_char n s)) [
    | inl ends ↦ rw (other, split-none n s ends) (ap (λ t. t ∷ []) (one_char c s))
    | inr (p, found) ↦ absurd (ground arith)
  ]
]

split-some :
    (n : ℕ) (s line rest : String)
    → split_at_char n s ≡ some (line, rest)
    → split n s ≡ line ∷ split n (drop_first rest)
unfolding split split_at_char put_first prepend drop_first
split-some n String.[] line rest e = absurd (cc)
split-some n (String.◌∷◌ c s) line rest e = elim (Bool-cases (nat_beq (code c) n)) [
  | inl here ↦
      let p : some ("", String.◌∷◌ c s) ≡ some (line, rest) = ground arith in
      rw here (ap (λ o. first_parts o) p)
  | inr other ↦ elim (Option-cases (split_at_char n s)) [
    | inl ends ↦ absurd (ground arith)
    | inr ((l, r), found) ↦
        let p : some (String.◌∷◌ c "" <> l, r) ≡ some (line, rest) = ground arith in
        rw (other, split-some n s l r found) (ap (λ o. first_parts o) p)
  ]
]
  where
    first_parts : Option (String × String) → List String
    first_parts none = []
    first_parts (some (l, r)) = l ∷ split n (drop_first r)

-- One message after the other; what follows the last end of a line stays in the buffer.
abbrev pub consume : List String → Service → Option Service
consume [] srvc = some srvc
consume (last ∷ []) srvc = some (record srvc { notifications_buffer = last })
consume (line ∷ next ∷ lines) srvc =
    handle_notification_message line srvc >>= λ srvc'. consume (next ∷ lines) srvc'

abbrev pub with_buffer : String → Service → Service
with_buffer buffer srvc = record srvc { notifications_buffer = buffer }

handle-with_buffer :
    (line buffer : String) (srvc : Service)
    → handle_notification_message line (with_buffer buffer srvc)
      ≡ Option.map (with_buffer buffer) (handle_notification_message line srvc)
unfolding handle_notification_message handle_parts push_status Option.map
handle-with_buffer line buffer srvc = parts (split b'=' line)
  where
    pushed :
        (key : String) (more : List String)
        → push_status (key ∷ more) (with_buffer buffer srvc)
          ≡ Option.map (with_buffer buffer) (push_status (key ∷ more) srvc)
    pushed key [] = refl
    pushed key (value ∷ more) = refl

    parts :
        (ps : List String)
        → handle_parts ps (with_buffer buffer srvc)
          ≡ Option.map (with_buffer buffer) (handle_parts ps srvc)
    parts [] = refl
    parts (key ∷ more) = elim (Bool-cases (str_eq key "STATUS")) [
      | inl e ↦ rw e (pushed key more)
      | inr e ↦ elim (Bool-cases (str_eq key "READY")) [
        | inl f ↦ rw (e, f) refl
        | inr f ↦ rw (e, f) refl
      ]
    ]

pub consume-with_buffer :
    (line buffer : String) (lines : List String) (srvc : Service)
    → consume (line ∷ lines) (with_buffer buffer srvc) ≡ consume (line ∷ lines) srvc
unfolding Option.map
consume-with_buffer line buffer [] srvc = refl
consume-with_buffer line buffer (next ∷ lines) srvc =
    elim (Option-cases (handle_notification_message line srvc)) [
      | inl failed ↦ rw (handle-with_buffer line buffer srvc, failed) refl
      | inr (srvc', went) ↦
          rw (handle-with_buffer line buffer srvc, went)
            (consume-with_buffer next buffer lines srvc')
    ]

handle-buffer :
    (line : String) (srvc srvc' : Service)
    → handle_notification_message line srvc ≡ some srvc'
    → srvc'.notifications_buffer ≡ srvc.notifications_buffer
unfolding handle_notification_message handle_parts push_status
handle-buffer line srvc srvc' e = kept (split b'=' line) e
  where
    kept :
        (ps : List String)
        → handle_parts ps srvc ≡ some srvc'
        → srvc'.notifications_buffer ≡ srvc.notifications_buffer
    kept [] h = absurd (cc)
    kept (key ∷ []) h = ground arith
    kept (key ∷ value ∷ more) h = ground arith

pub split-nonempty : (n : ℕ) (s : String) → (p : String) × (ps : List String) × (split n s ≡ p ∷ ps)
unfolding split prepend
split-nonempty n String.[] = ("", [], refl)
split-nonempty n (String.◌∷◌ c s) = elim (Bool-cases (nat_beq (code c) n)) [
  | inl here ↦ ("", split n s, rw here refl)
  | inr other ↦
      let (p, ps, e) = split-nonempty n s in (String.◌∷◌ c "" <> p, ps, rw (other, e) refl)
]

first_line-consume :
    (fuel : ℕ) (srvc : Service) (line rest p : String) (ps : List String)
    → split_at_char b'\n' srvc.notifications_buffer ≡ some (line, rest)
    → split b'\n' srvc.notifications_buffer ≡ line ∷ p ∷ ps
    → ((next : Service)
        → handle_notifications_from_buffer fuel (with_buffer (drop_first rest) next)
          ≡ some (consume (p ∷ ps) (with_buffer (drop_first rest) next)))
    → handle_notifications_from_buffer (suc fuel) srvc
      ≡ some (consume (split b'\n' srvc.notifications_buffer) srvc)
unfolding handle_notifications_from_buffer Option.map
first_line-consume fuel srvc line rest p ps found parts again =
    let buffer = drop_first rest in
    let same = handle-with_buffer line buffer srvc in
    elim (Option-cases (handle_notification_message line srvc)) [
      | inl failed ↦ ground (arith, same)
      | inr (next, went) ↦ ground (arith, same, again next, consume-with_buffer p buffer ps next)
    ]

-- With fuel for each line, the loop handles the complete lines of the buffer, in their order, until one of them
-- panics, and leaves what follows the last of them.
pub handle_notifications_from_buffer-consume :
    (fuel : ℕ) (srvc : Service)
    → length (split b'\n' srvc.notifications_buffer) ≤ fuel
    → handle_notifications_from_buffer fuel srvc
      ≡ some (consume (split b'\n' srvc.notifications_buffer) srvc)
unfolding handle_notifications_from_buffer
handle_notifications_from_buffer-consume zero srvc enough =
    let (p, ps, e) = split-nonempty b'\n' srvc.notifications_buffer in
    let short : length (p ∷ ps) ≤ 0 = subst (λ l. length l ≤ 0) e enough in absurd (omega arith)
handle_notifications_from_buffer-consume (suc fuel) srvc enough =
    elim (Option-cases (split_at_char b'\n' srvc.notifications_buffer)) [
      | inl ends ↦
          let stops : handle_notifications_from_buffer (suc fuel) srvc ≡ some (some srvc) =
            ground arith in
          let parts = split-none b'\n' srvc.notifications_buffer ends in
          stops ∙ sym (ap (λ l. some (consume l srvc)) parts)
      | inr ((line, rest), found) ↦
          let buffer = drop_first rest in
          let parts = split-some b'\n' srvc.notifications_buffer line rest found in
          let (p, ps, e) = split-nonempty b'\n' buffer in
          let all = parts ∙ ap (λ l. line ∷ l) e in
          let left : length (split b'\n' buffer) ≤ fuel =
            let l = subst (λ l. length l ≤ suc fuel) parts enough in omega arith in
          first_line-consume fuel srvc line rest p ps found all (λ next.
            handle_notifications_from_buffer-consume fuel (with_buffer buffer next) left
            ∙ ap (λ l. some (consume l (with_buffer buffer next))) e)
    ]
