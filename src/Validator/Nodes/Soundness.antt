-- ===== src/Validator/Nodes/Soundness.antt =====
-- What the checks of a node guarantee, in terms of the node alone.
use essentials_calls.Base.{
  ℕ, String, ◌≡◌, refl, true, false, not, Option, none, some, [], ◌∷◌, arith, contains_true,
  not-false, or_false, and_false,
}
use mathlib.Core.List.{Memᴰ}
use essentials_calls.Base.Texts.{is_empty, digits_only}
use essentials_calls.Model.{
  InRange, Number, pos, negsuc, fraction, below, ExtensionProperties, IvrProperties,
  RingGroupProperties, QueueProperties,
}
use essentials_calls.Validator.Issue.{has_errors, report_if-false, report_if-append}
use essentials_calls.Validator.Extension.{is_emergency, is_sip_user, active_mailbox}
use essentials_calls.Validator.Nodes.{
  ValidationOptions, outside, unsafe_greeting, unknown_sound, check_ivr, ring_strategies,
  queue_strategies, check_ringgroup, check_queue,
}

pub outside-false : (low high : ℕ) (x : Number) → outside low high x ≡ false → InRange low high x
outside-false low high (pos n) h = (n, refl, ground arith, ground arith)
outside-false low high (negsuc n) h = cc
outside-false low high (fraction s w t) h = cc

-- What is asked of an active mailbox, if there is one.
abbrev pub Mailbox : Option String → Type 0
Mailbox none = Unit {0}
Mailbox (some m) = digits_only m ≡ true

pub record IsExtension (p : ExtensionProperties) : Type 0 where
  pub number : digits_only p.number ≡ true
  pub routable : is_emergency p.number ≡ false
  pub user : is_sip_user p.sip_user ≡ true
  pub mailbox : Mailbox (active_mailbox p.voicemail)

pub record IsIvr (options : ValidationOptions) (p : IvrProperties) : Type 0 where
  pub present : is_empty p.greeting ≡ false
  pub safe : unsafe_greeting p.greeting ≡ false
  pub timeout : InRange 1 120 p.timeout
  pub playable : unknown_sound options.sound_references p.greeting ≡ false
  pub retries : below p.invalid_retries 1 ≡ false

pub record IsRingGroup (p : RingGroupProperties) : Type 0 where
  pub strategy : Memᴰ p.strategy ring_strategies
  pub timeout : InRange 1 300 p.ring_timeout

pub record IsQueue (p : QueueProperties) : Type 0 where
  pub strategy : Memᴰ p.strategy queue_strategies
  pub join : Memᴰ p.join_empty ("yes" ∷ "no" ∷ "strict" ∷ [])
  pub leave : Memᴰ p.leave_when_empty ("yes" ∷ "no" ∷ [])
  pub timeout : InRange 1 300 p.timeout
  pub wait : InRange 1 3600 p.max_wait_time

pub check_ivr-IsIvr :
    (options : ValidationOptions) (id : String) (p : IvrProperties)
    → has_errors (check_ivr options id p) ≡ false
    → IsIvr options p
unfolding check_ivr
check_ivr-IsIvr options id p h =
    let (a, h1) = report_if-append _ _ _ refl h in
    let (b, h2) = report_if-append _ _ _ refl h1 in
    let (c, h3) = report_if-append _ _ _ refl h2 in
    let (d, h4) = report_if-append _ _ _ refl h3 in
    let present : not (is_empty p.greeting) ≡ true = rw a refl in
    record {
      present = a;
      safe = and_false _ _ b present;
      timeout = outside-false 1 120 p.timeout c;
      playable = and_false _ _ d present;
      retries = report_if-false _ _ refl h4;
    }

pub check_ringgroup-IsRingGroup :
    (id : String) (p : RingGroupProperties)
    → has_errors (check_ringgroup id p) ≡ false
    → IsRingGroup p
unfolding check_ringgroup
check_ringgroup-IsRingGroup id p h =
    let (a, b) = report_if-append _ _ _ refl h in
    record {
      strategy = contains_true p.strategy ring_strategies (not-false _ a);
      timeout = outside-false 1 300 p.ring_timeout (report_if-false _ _ refl b);
    }

pub check_queue-IsQueue :
    (id : String) (p : QueueProperties) → has_errors (check_queue id p) ≡ false → IsQueue p
unfolding check_queue
check_queue-IsQueue id p h =
    let (a, h1) = report_if-append _ _ _ refl h in
    let (b, h2) = report_if-append _ _ _ refl h1 in
    let (join, leave) = or_false _ _ b in
    let (timeout, wait) = or_false _ _ (report_if-false _ _ refl h2) in
    record {
      strategy = contains_true p.strategy queue_strategies (not-false _ a);
      join = contains_true p.join_empty _ (not-false _ join);
      leave = contains_true p.leave_when_empty _ (not-false _ leave);
      timeout = outside-false 1 300 p.timeout timeout;
      wait = outside-false 1 3600 p.max_wait_time wait;
    }
