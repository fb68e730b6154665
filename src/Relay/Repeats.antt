-- ===== src/Relay/Repeats.antt =====
-- ao_relay.py: no outcome is told twice.
use text.Mathlib.TextLemmas.{cons-append}
use Prim.Native.String.{[] as ε, ◌∷◌ as ◌∷∷◌}
use agent_workflow_superviso.Prelude.{
  ℕ, String, ◌<>◌, Bool, true, false, not, ◌&&◌, ◌||◌, none, some, [], ◌∷◌, ◌≡◌, ◌≢◌, sym, refl,
  ◌∙◌, arith,
}
use agent_workflow_superviso.Prelude.{
  if◌then◌else◌, ◌==◌, ◌!=◌, contains, string_eq, option_eq, any,
}
use agent_workflow_superviso.Prelude.Text.{str, is_empty}
use agent_workflow_superviso.Models.{AgentSession}
use agent_workflow_superviso.Graph.State.{or_none}
use agent_workflow_superviso.Tables.{update, is_null, is_due}
use agent_workflow_superviso.Tables.Queries.{any-update_none}
use agent_workflow_superviso.Relay.Store.{
  RelayWorker, Workers, row, is_worker, is_open, is_pending, observed, observe, has_notice,
  mark_notified, terminal_states, attention_states,
}
use agent_workflow_superviso.Relay.Messages.{is_terminal, notification_key}

-- `"terminated" if session.terminated else session.status`
abbrev pub status_of : AgentSession → String
status_of s = if s.terminated then "terminated" else s.status

key_again :
    (session : AgentSession) (previous r : RelayWorker) (seq : ℕ) (key : String)
    → notification_key session previous seq ≡ some key
    → r.notified_key ≡ some key
    → r.last_status ≡ status_of session
    → contains terminal_states r.last_status ≡ false
    → notification_key session r seq ≡ none
unfolding notification_key is_terminal
key_again session previous r seq key h n l c = ground arith

-- What a key begins with is not empty.
keyed : (s t key : String) → is_empty s ≡ false → (s <> t) ≡ key → key ≢ ""
unfolding is_empty
keyed ε t key full e h = absurd (cc)
keyed (c ∷∷ s) t key full e h =
    let begins : (c ∷∷ (s <> t)) ≡ "" = sym (cons-append c s t) ∙ e ∙ h in absurd (cc)

some-injective : {A : Type 0} {a b : A} → some a ≡ some b → a ≡ b
some-injective h = cc

-- The key is one of the three that are built.
one_of :
    (b c d e : Bool) (x y z key : String)
    → (x ≡ key → key ≢ "")
    → (y ≡ key → key ≢ "")
    → (z ≡ key → key ≢ "")
    → (if b then some x else if c then (if e then some y else none) else if d then some z else none)
      ≡ some key
    → key ≢ ""
one_of true c d e x y z key kx ky kz h = kx (some-injective h)
one_of false true d true x y z key kx ky kz h = ky (some-injective h)
one_of false true d false x y z key kx ky kz h = absurd (cc)
one_of false false true e x y z key kx ky kz h = kz (some-injective h)
one_of false false false e x y z key kx ky kz h = absurd (cc)

key_nonempty :
    (session : AgentSession) (previous : RelayWorker) (seq : ℕ) (key : String)
    → notification_key session previous seq ≡ some key
    → key ≢ ""
unfolding notification_key is_empty
key_nonempty session previous seq key h =
    let mark = str seq <> (":" <> session.last_activity_at) in
    one_of (is_terminal session && not (contains terminal_states previous.last_status))
      (contains attention_states session.status)
      (session.status == "idle" && previous.seen_active && previous.last_status != "idle")
      (some ("attention:" <> (session.status <> (":" <> mark))) != previous.notified_key)
      ("terminal:" <> (session.status <> (":" <> mark)))
      ("attention:" <> (session.status <> (":" <> mark))) ("idle:" <> mark) key
      (keyed "terminal:" (session.status <> (":" <> mark)) key refl)
      (keyed "attention:" (session.status <> (":" <> mark)) key refl) (keyed "idle:" mark key refl)
      h

-- What a second look at the worker would do: tell it, or find another outcome.
abbrev pub repeats : AgentSession → ℕ → RelayWorker → Bool
repeats session seq r =
    is_worker session.id r
    && (is_pending r || (is_open r && not (is_null (notification_key session (row r) seq))))

module _ (now now' : String) (session : AgentSession) (previous : RelayWorker) (seq : ℕ)
    (seen : Bool) (key : String)
    (keyed_now : notification_key session previous seq ≡ some key) where
  -- The row after the outcome was observed and told.
  told : RelayWorker → RelayWorker
  unfolding observed
  told r = record (observed now (status_of session) seen (some key) r) {
    notified_key = some key;
    last_message_sequence = seq;
    notification_error = none;
    updated_at = now';
  }

  told-repeats : (r : RelayWorker) → repeats session seq (told r) ≡ false
  unfolding told observed is_pending is_open is_due row or_none
  told-repeats r =
      let again = key_again session previous (row (told r)) seq key keyed_now in
      let full = key_nonempty session previous seq key keyed_now in ground (arith, again, full)

  other-repeats : (r : RelayWorker) → is_worker session.id r ≡ false → repeats session seq r ≡ false
  other-repeats r other = ground arith

  updated_twice :
      (rows : Workers)
      → update
          (has_notice session.id key)
          (λ r. record r {
            notified_key = some key;
            last_message_sequence = seq;
            notification_error = none;
            updated_at = now';
          })
          (update (is_worker session.id) (observed now (status_of session) seen (some key)) rows)
        ≡ update (is_worker session.id) told rows
  unfolding update has_notice is_worker told observed
  updated_twice [] = refl
  updated_twice (r ∷ rows) = ground (arith, updated_twice rows)

  -- An outcome that a worker's session was found in, and that was told, is not told again while the
  -- session and its latest report stay as they are: the notice does not wait any more, and where the
  -- worker is still looked at, the session gives no other key.
  pub told_once :
      (rows : Workers)
      → any (repeats session seq) (
          mark_notified now' session.id key seq
            (observe now session.id (status_of session) seen (some key) rows))
        ≡ false
  unfolding mark_notified observe
  told_once rows = rw (updated_twice rows) (
      any-update_none (repeats session seq) (is_worker session.id) told rows
        (λ r found. told-repeats r) other-repeats)
