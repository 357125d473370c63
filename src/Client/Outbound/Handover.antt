-- ===== src/Client/Outbound/Handover.antt =====
-- The task that drains `outgoing_tx` and the callback `on_open` run side by side. Here each of their
-- reads and writes is a step of its own: the task looks whether the channel is open, and puts a message
-- off in a later step; the callback writes the handshake, takes what was put off, and writes it.
pub mod Races
use p2p_common.Common.{ℕ, ◌≡◌, Bool, true, false, Option, none, some, List, [], ◌∷◌, ◌++◌}
use p2p_common.Protocol.Message.{SecuredP2pEnvelope}

pub data Stage : Type 0 where
  waiting greeted drained : Stage

pub record Handover : Type 0 where
  pub is_open : Bool
  pub stage : Stage
  -- the message that the task found no open channel for
  pub in_hand : Option SecuredP2pEnvelope
  pub pending_messages : List SecuredP2pEnvelope
  -- what `on_open` took and has still to write
  pub to_write : List SecuredP2pEnvelope
  pub written : List SecuredP2pEnvelope
  -- the messages that could not be encoded, or whose write failed
  pub dropped : List SecuredP2pEnvelope
  -- the messages that the task has received and sealed, and the handshakes
  pub taken : List SecuredP2pEnvelope

abbrev pub begin : Handover
begin = record {
  is_open = false;
  stage = waiting;
  in_hand = none;
  pending_messages = [];
  to_write = [];
  written = [];
  dropped = [];
  taken = [];
}

pub data Step : Handover → Handover → Type 0 where
  pass_on :
      (h : Handover) (m : SecuredP2pEnvelope)
      → h.in_hand ≡ none
      → h.is_open ≡ true
      → Step h (record h { written = h.written ++ m ∷ []; taken = h.taken ++ m ∷ [] })
  -- the encoding or the write of a message fails
  fail_pass :
      (h : Handover) (m : SecuredP2pEnvelope)
      → h.in_hand ≡ none
      → h.is_open ≡ true
      → Step h (record h { dropped = h.dropped ++ m ∷ []; taken = h.taken ++ m ∷ [] })
  find_shut :
      (h : Handover) (m : SecuredP2pEnvelope)
      → h.in_hand ≡ none
      → h.is_open ≡ false
      → Step h (record h { in_hand = some m; taken = h.taken ++ m ∷ [] })
  put_off :
      (h : Handover) (m : SecuredP2pEnvelope)
      → h.in_hand ≡ some m
      → Step h (record h { in_hand = none; pending_messages = h.pending_messages ++ m ∷ [] })
  open_channel : (h : Handover) → Step h (record h { is_open = true })
  -- the library closes the channel, whatever runs
  close_channel : (h : Handover) → Step h (record h { is_open = false })
  greet :
      (h : Handover) (hello : SecuredP2pEnvelope)
      → h.is_open ≡ true
      → h.stage ≡ waiting
      → Step h (record h {
        stage = greeted;
        written = h.written ++ hello ∷ [];
        taken = h.taken ++ hello ∷ [];
      })
  fail_greet :
      (h : Handover) (hello : SecuredP2pEnvelope)
      → h.stage ≡ waiting
      → Step h (record h {
        stage = greeted;
        dropped = h.dropped ++ hello ∷ [];
        taken = h.taken ++ hello ∷ [];
      })
  drain :
      (h : Handover)
      → h.stage ≡ greeted
      → Step h (record h { stage = drained; to_write = h.pending_messages; pending_messages = [] })
  flush :
      (h : Handover) (m : SecuredP2pEnvelope) (rest : List SecuredP2pEnvelope)
      → h.is_open ≡ true
      → h.to_write ≡ m ∷ rest
      → Step h (record h { to_write = rest; written = h.written ++ m ∷ [] })
  fail_flush :
      (h : Handover) (m : SecuredP2pEnvelope) (rest : List SecuredP2pEnvelope)
      → h.to_write ≡ m ∷ rest
      → Step h (record h { to_write = rest; dropped = h.dropped ++ m ∷ [] })

pub data Reach (s : Handover) : Handover → Type 0 where
  here : Reach s s
  next : {t u : Handover} → Reach s t → Step t u → Reach s u
