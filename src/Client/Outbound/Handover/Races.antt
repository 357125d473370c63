-- ===== src/Client/Outbound/Handover/Races.antt =====
-- What every interleaving keeps, and what some of them do.
use p2p_common.Common.{
  ℕ, ◌≡◌, ◌≢◌, ◌+◌, refl, sym, ap, ◌∙◌, Bool, Option, none, some, List, [], ◌∷◌, ◌++◌, arith,
  one_if,
}
use p2p_common.Protocol.Message.{SecuredP2pEnvelope}
use p2p_common.Client.Outbound.Handover.{
  Handover, drained, begin, Step, pass_on, fail_pass, find_shut, put_off, open_channel,
  close_channel, greet, fail_greet, drain, flush, fail_flush, Reach, here, next,
}

-- How many messages pass a test
abbrev pub tally : (SecuredP2pEnvelope → Bool) → List SecuredP2pEnvelope → ℕ
tally p [] = 0
tally p (m ∷ ms) = one_if (p m) + tally p ms

abbrev pub tally_hand : (SecuredP2pEnvelope → Bool) → Option SecuredP2pEnvelope → ℕ
tally_hand p none = 0
tally_hand p (some m) = one_if (p m)

tally-append :
    (p : SecuredP2pEnvelope → Bool) (xs ys : List SecuredP2pEnvelope)
    → tally p (xs ++ ys) ≡ tally p xs + tally p ys
tally-append p [] ys = omega arith
tally-append p (x ∷ xs) ys = omega (arith, tally-append p xs ys)

-- Each message is in one place. What is taken for writing is taken once.
abbrev pub Accounted : (SecuredP2pEnvelope → Bool) → Handover → Type 0
Accounted p h =
    (tally p h.written
        + tally p h.dropped
        + tally p h.to_write
        + tally p h.pending_messages
        + tally_hand p h.in_hand
      ≡ tally p h.taken)

abbrev pub NothingTaken : Handover → Type 0
NothingTaken h = h.stage ≢ drained → h.to_write ≡ []

Step-Accounted :
    (p : SecuredP2pEnvelope → Bool) {g h : Handover}
    → Step g h
    → NothingTaken g
    → Accounted p g
    → Accounted p h
Step-Accounted p (pass_on g m idle up) taken a =
    omega (arith, tally-append p g.written (m ∷ []), tally-append p g.taken (m ∷ []))
Step-Accounted p (fail_pass g m idle up) taken a =
    omega (arith, tally-append p g.dropped (m ∷ []), tally-append p g.taken (m ∷ []))
Step-Accounted p (find_shut g m idle shut) taken a =
    let e = ap (tally_hand p) idle in omega (arith, e, tally-append p g.taken (m ∷ []))
Step-Accounted p (put_off g m held) taken a =
    let e = ap (tally_hand p) held in omega (arith, e, tally-append p g.pending_messages (m ∷ []))
Step-Accounted p (open_channel g) taken a = a
Step-Accounted p (close_channel g) taken a = a
Step-Accounted p (fail_greet g hello first) taken a =
    omega (arith, tally-append p g.dropped (hello ∷ []), tally-append p g.taken (hello ∷ []))
Step-Accounted p (greet g hello up first) taken a =
    omega (arith, tally-append p g.written (hello ∷ []), tally-append p g.taken (hello ∷ []))
Step-Accounted p (drain g stage) taken a =
    let e = ap (tally p) (taken (λ d. cc (sym stage ∙ d))) in omega (arith, e)
Step-Accounted p (flush g m rest up some_left) taken a =
    let e = ap (tally p) some_left in omega (arith, e, tally-append p g.written (m ∷ []))
Step-Accounted p (fail_flush g m rest some_left) taken a =
    let e = ap (tally p) some_left in omega (arith, e, tally-append p g.dropped (m ∷ []))

Step-NothingTaken : {g h : Handover} → Step g h → NothingTaken g → NothingTaken h
Step-NothingTaken (pass_on g m idle up) taken = taken
Step-NothingTaken (fail_pass g m idle up) taken = taken
Step-NothingTaken (find_shut g m idle shut) taken = taken
Step-NothingTaken (put_off g m held) taken = taken
Step-NothingTaken (open_channel g) taken = taken
Step-NothingTaken (close_channel g) taken = taken
Step-NothingTaken (fail_greet g hello first) taken = λ d. taken (λ e. cc (sym first ∙ e))
Step-NothingTaken (greet g hello up first) taken = λ d. taken (λ e. cc (sym first ∙ e))
Step-NothingTaken (drain g stage) taken = λ d. absurd (d refl)
Step-NothingTaken (flush g m rest up some_left) taken = λ d. absurd (cc (sym some_left ∙ taken d))
Step-NothingTaken (fail_flush g m rest some_left) taken = λ d. absurd (cc (sym some_left ∙ taken d))

Reach-both :
    (p : SecuredP2pEnvelope → Bool) {h : Handover} → Reach begin h → NothingTaken h × Accounted p h
Reach-both p here = ((λ d. refl), refl)
Reach-both p (next r s) =
    let (taken, a) = Reach-both p r in (Step-NothingTaken s taken, Step-Accounted p s taken a)

-- However the two interleave, and whenever the channel closes, no message is lost but by a failed write or
-- encoding, and none is written twice: those that were taken from the queue and sealed, and the handshakes, are as
-- many as those that are written, dropped for such a failure, about to be written, put off and in hand,
-- whatever messages one counts.
pub Reach-Accounted : (p : SecuredP2pEnvelope → Bool) {h : Handover} → Reach begin h → Accounted p h
Reach-Accounted p r = (Reach-both p r).1

-- After the callback has taken what was put off, nothing else does.
abbrev pub Stranded : SecuredP2pEnvelope → Handover → Type 0
Stranded m h =
    (rest : List SecuredP2pEnvelope) × (h.stage ≡ drained) × (h.pending_messages ≡ m ∷ rest)

Step-Stranded : (m : SecuredP2pEnvelope) {g h : Handover} → Step g h → Stranded m g → Stranded m h
Step-Stranded m (pass_on g x idle up) st = st
Step-Stranded m (fail_pass g x idle up) st = st
Step-Stranded m (find_shut g x idle shut) st = st
Step-Stranded m (put_off g x held) (rest, done, at) =
    (rest ++ x ∷ [], done, ap (λ ms. ms ++ x ∷ []) at)
Step-Stranded m (open_channel g) st = st
Step-Stranded m (close_channel g) st = st
Step-Stranded m (fail_greet g hello first) (rest, done, at) = absurd (cc (sym first ∙ done))
Step-Stranded m (greet g hello up first) (rest, done, at) = absurd (cc (sym first ∙ done))
Step-Stranded m (drain g stage) (rest, done, at) = absurd (cc (sym stage ∙ done))
Step-Stranded m (flush g x rest up some_left) st = st
Step-Stranded m (fail_flush g x rest some_left) st = st

Reach-Stranded : (m : SecuredP2pEnvelope) {g h : Handover} → Stranded m g → Reach g h → Stranded m h
Reach-Stranded m st here = st
Reach-Stranded m st (next r s) = Step-Stranded m s (Reach-Stranded m st r)

-- Two races. A message that the task finds no open channel for, and puts off after the callback has taken
-- what was put off, stays there for good. And one that the task takes as soon as the channel is open is
-- written before the handshake.
pub races :
    (m hello : SecuredP2pEnvelope)
    → ((h : Handover) × Reach begin h × ((later : Handover) → Reach h later → Stranded m later))
      × ((h : Handover) × Reach begin h × (h.written ≡ m ∷ hello ∷ []))
races m hello = (
  (
    _,
    next
        (next
          (next (next (next here (find_shut begin m refl refl)) (open_channel _))
            (greet _ hello refl refl))
          (drain _ refl))
        (put_off _ m refl),
    λ later r. Reach-Stranded m ([], refl, refl) r,
  ),
  (
    _,
    next (next (next here (open_channel begin)) (pass_on _ m refl refl)) (greet _ hello refl refl),
    refl,
  ),
)
