-- ===== src/Status/Dedup.antt =====
-- The keys that `onMessage` remembers of events.
use mathlib.Core.List.{append_assoc}
use essentials_calls.Base.{
  ℕ, suc, ◌+◌, ◌-◌, ◌≤◌, String, ◌≡◌, refl, true, false, ◌||◌, Option, none, some, List, [], ◌∷◌,
  ◌++◌, arith, ap, ◌∙◌, sym, length, length-append, ltb, inl, inr, Bool-cases, ==_refl, ◌==◌,
  if◌then◌else◌, if_either, if_split, or_false, subst, ◌<◌, All,
}
use essentials_calls.Model.{PbxNode, truthy}
use essentials_calls.Base.Entries.{Entries, is_some, lookup, set}
use essentials_calls.Status.Messages.{AmiMessage, event_key}
use essentials_calls.Status.Events.{
  Service, Handled, evict, remember, is_known, take_event, on_message, unchanged,
}

set-missing :
    {A : Type 0} (k : String) (a : A) (s : Entries A)
    → lookup k s ≡ none
    → set k a s ≡ s ++ (k, a) ∷ []
unfolding set lookup
set-missing k a [] h = refl
set-missing k a ((j, b) ∷ rest) h = elim (Bool-cases (j == k)) [
  | inl e ↦ cc (rw e at h)
  | inr e ↦ rw (e, set-missing k a rest (rw e at h)) refl
]

known_later :
    (k j : String) (t : ℕ) (s : Entries ℕ) → is_known k s ≡ true → is_known k ((j, t) ∷ s) ≡ true
unfolding lookup
known_later k j t s h = ground arith

length-evict_le : (now size : ℕ) (xs : Entries ℕ) → length (evict now size xs) ≤ length xs
unfolding evict
length-evict_le now size [] = omega arith
length-evict_le now size ((k, t) ∷ rest) =
    if_either (λ (l : Entries ℕ). length l ≤ suc (length rest))
      (ltb 120000 (now - t) || ltb 900 size) (evict now (size - 1) rest)
      ((k, t) ∷ evict now size rest) (omega (arith, length-evict_le now (size - 1) rest))
      (omega (arith, length-evict_le now size rest))

-- The key was set at a time, and at most `n` keys were set after it.
abbrev Recent : String → ℕ → ℕ → Entries ℕ → Type 0
Recent k t n keys =
    (xs : Entries ℕ) × (ys : Entries ℕ) × (keys ≡ xs ++ (k, t) ∷ ys) × (length ys ≤ n)

known_among : (k : String) (t : ℕ) (xs ys : Entries ℕ) → is_known k (xs ++ (k, t) ∷ ys) ≡ true
unfolding lookup
known_among k t [] ys = ground (arith, ==_refl k)
known_among k t ((j, u) ∷ xs) ys = known_later k j u (xs ++ (k, t) ∷ ys) (known_among k t xs ys)

Recent-known :
    (k : String) (t n : ℕ) (keys : Entries ℕ) → Recent k t n keys → is_known k keys ≡ true
Recent-known k t n keys (xs, ys, e, le) = ap (is_known k) e ∙ known_among k t xs ys

Recent-suc : (k : String) (t n : ℕ) (keys : Entries ℕ) → Recent k t n keys → Recent k t (suc n) keys
Recent-suc k t n keys (xs, ys, e, le) = (xs, ys, e, omega (arith, le))

-- A key of the last two minutes with fewer than 900 newer ones is not evicted.
evict-Recent :
    (now size : ℕ) (k : String) (t : ℕ) (xs ys : Entries ℕ)
    → now ≤ t + 120000
    → size ≤ 900 + length xs
    → Recent k t (length ys) (evict now size (xs ++ (k, t) ∷ ys))
unfolding evict
evict-Recent now size k t [] ys early h =
    let young : (ltb 120000 (now - t) || ltb 900 size) ≡ false = ground arith in
    ([], evict now size ys, rw young refl, length-evict_le now size ys)
evict-Recent now size k t ((j, u) ∷ xs) ys early h =
    if_split (Recent k t (length ys)) (ltb 120000 (now - u) || ltb 900 size) _ _
      (λ _. evict-Recent now (size - 1) k t xs ys early (omega arith))
      (λ keep.
        let (a, b, e, le) = evict-Recent now size k t xs ys early (ground arith) in
        ((j, u) ∷ a, b, ap (λ l. (j, u) ∷ l) e, le))

remembered :
    (j : String) (now : ℕ) (k : String) (t : ℕ) (xs ys : Entries ℕ) (all : Entries ℕ)
    → all ≡ xs ++ (k, t) ∷ ys
    → now ≤ t + 120000
    → length ys < 900
    → Recent k t (length ys) (if ltb 1000 (length all) then evict now (length all) all else all)
remembered j now k t xs ys all e early few =
    if_either (Recent k t (length ys)) (ltb 1000 (length all)) (evict now (length all) all) all
      (subst (λ l. Recent k t (length ys) (evict now (length l) l)) (sym e)
        (evict-Recent now (length (xs ++ (k, t) ∷ ys)) k t xs ys early
          (omega (arith, length-append xs ((k, t) ∷ ys)))))
      (xs, ys, e, omega arith)

remember-Recent :
    (k : String) (now : ℕ) (s : Entries ℕ) → lookup k s ≡ none → Recent k now 0 (remember k now s)
unfolding remember
remember-Recent k now s h =
    remembered k now k now s [] (set k now s) (set-missing k now s h) (omega arith) (omega arith)

remember-Recent_later :
    (j : String) (now : ℕ) (k : String) (t n : ℕ) (s : Entries ℕ)
    → lookup j s ≡ none
    → now ≤ t + 120000
    → suc n < 900
    → Recent k t n s
    → Recent k t (suc n) (remember j now s)
unfolding remember
remember-Recent_later j now k t n s h early few (xs, ys, e, le) =
    let longer = length-append ys ((j, now) ∷ []) in
    let (a, b, f, short) =
      remembered j now k t xs (ys ++ (j, now) ∷ []) (set j now s)
        (set-missing j now s h
          ∙ ap (λ l. l ++ (j, now) ∷ []) e
          ∙ append_assoc xs ((k, t) ∷ ys) ((j, now) ∷ []))
        early (omega (arith, longer, le, few)) in
    (a, b, f, omega (arith, longer, le, short))

length-evict : (now size : ℕ) (xs : Entries ℕ) → length xs ≤ size → length (evict now size xs) ≤ 900
unfolding evict
length-evict now size [] h = omega arith
length-evict now size ((k, t) ∷ rest) h =
    if_split (λ (l : Entries ℕ). length l ≤ 900) (ltb 120000 (now - t) || ltb 900 size)
      (evict now (size - 1) rest) ((k, t) ∷ evict now size rest)
      (λ _. length-evict now (size - 1) rest (omega arith))
      (λ keep.
        let le = length-evict_le now size rest in
        small _ (length rest) size le h (or_false _ _ keep).1)
  where
    small : (a b c : ℕ) → a ≤ b → suc b ≤ c → ltb 900 c ≡ false → suc a ≤ 900
    small a b c p q r = ground arith

length-remember : (k : String) (now : ℕ) (s : Entries ℕ) → length (remember k now s) ≤ 1000
unfolding remember
length-remember k now s =
    let all = set k now s in
    if_split (λ (l : Entries ℕ). length l ≤ 1000) (ltb 1000 (length all))
      (evict now (length all) all) all
      (λ _. omega (arith, length-evict now (length all) all (omega arith)))
      (λ few. not_above (length all) few)
  where
    not_above : (n : ℕ) → ltb 1000 n ≡ false → n ≤ 1000
    not_above n h = ground arith

seen_again :
    (nodes : List PbxNode) (now : ℕ) (m : AmiMessage) (s : Service)
    → is_known (event_key m) s.event_keys ≡ true
    → on_message nodes now m s ≡ unchanged s
unfolding on_message
seen_again nodes now m s h =
    if_either (λ t. t ≡ unchanged s) (truthy m.event)
      (if is_known (event_key m) s.event_keys then unchanged s else take_event nodes now m s)
      (unchanged s)
      (if_split (λ t. t ≡ unchanged s) (is_known (event_key m) s.event_keys) (unchanged s)
        (take_event nodes now m s) (λ _. refl) (λ new. cc (h, new)))
      refl

silent_again :
    (nodes : List PbxNode) (now : ℕ) (m : AmiMessage) (s : Service)
    → truthy m.event ≡ false
    → on_message nodes now m s ≡ unchanged s
unfolding on_message
silent_again nodes now m s h = rw h refl

new_event :
    (nodes : List PbxNode) (now : ℕ) (m : AmiMessage) (s : Service)
    → truthy m.event ≡ true
    → is_known (event_key m) s.event_keys ≡ false
    → on_message nodes now m s ≡ take_event nodes now m s
unfolding on_message
new_event nodes now m s h new =
    if_split (λ t. t ≡ take_event nodes now m s) (truthy m.event)
      (if is_known (event_key m) s.event_keys then unchanged s else take_event nodes now m s)
      (unchanged s)
      (λ _.
        if_split (λ t. t ≡ take_event nodes now m s) (is_known (event_key m) s.event_keys)
          (unchanged s) (take_event nodes now m s) (λ seen. cc (seen, new)) (λ _. refl))
      (λ silent. cc (silent, h))

abbrev pub Arrival : Type 0
Arrival = List PbxNode × (ℕ × AmiMessage)

-- The service after a sequence of events.
unfoldable pub run_events : Service → List Arrival → Service
run_events s [] = s
run_events s ((nodes, (now, m)) ∷ rest) = run_events (on_message nodes now m s).service rest

unknown_key : (k : String) (s : Entries ℕ) → is_known k s ≡ false → lookup k s ≡ none
unknown_key k s h = missing (lookup k s) h
  where
    missing : (o : Option ℕ) → is_some o ≡ false → o ≡ none
    missing none h = refl
    missing (some t) h = cc h

on_message-Recent :
    (nodes : List PbxNode) (now : ℕ) (m : AmiMessage) (s : Service) (k : String) (t n : ℕ)
    → now ≤ t + 120000
    → suc n < 900
    → Recent k t n s.event_keys
    → Recent k t (suc n) (on_message nodes now m s).service.event_keys
unfolding take_event
on_message-Recent nodes now m s k t n early few h =
    let Keeps = λ (o : Handled). Recent k t (suc n) o.service.event_keys in
    let kept = Recent-suc k t n s.event_keys h in
    elim (Bool-cases (truthy m.event)) [
      | inr silent ↦ subst Keeps (sym (silent_again nodes now m s silent)) kept
      | inl event ↦ elim (Bool-cases (is_known (event_key m) s.event_keys)) [
        | inl seen ↦ subst Keeps (sym (seen_again nodes now m s seen)) kept
        | inr new ↦ subst Keeps (sym (new_event nodes now m s event new)) (
            remember-Recent_later (event_key m) now k t n s.event_keys
              (unknown_key (event_key m) s.event_keys new) early few h)
      ]
    ]

-- The messages arrive at most two minutes after the time.
abbrev pub ArriveBy : ℕ → List Arrival → Type 0
ArriveBy t arrivals = All (λ (a : Arrival). a.1.0 ≤ t + 120000) arrivals

run_events-known :
    (arrivals : List Arrival) (s : Service) (k : String) (t n : ℕ)
    → ArriveBy t arrivals
    → n + length arrivals < 900
    → Recent k t n s.event_keys
    → is_known k (run_events s arrivals).event_keys ≡ true
unfolding run_events
run_events-known [] s k t n soon few h = Recent-known k t n s.event_keys h
run_events-known ((nodes, (now, m)) ∷ rest) s k t n soon few h =
    run_events-known rest (on_message nodes now m s).service k t (suc n) soon.1 (omega (arith, few))
      (on_message-Recent nodes now m s k t n soon.0 (omega (arith, few)) h)

-- An event with a new key that arrives again, after fewer than 900 other messages that all came in
-- the two minutes after it, changes nothing and is not published, whatever the topologies are.
pub on_message_once :
    (nodes later_nodes : List PbxNode) (now later : ℕ) (m : AmiMessage) (s : Service)
    (arrivals : List Arrival)
    → is_known (event_key m) s.event_keys ≡ false
    → length arrivals < 900
    → ArriveBy now arrivals
    → on_message later_nodes later m (run_events (on_message nodes now m s).service arrivals)
      ≡ unchanged (run_events (on_message nodes now m s).service arrivals)
unfolding take_event
on_message_once nodes later_nodes now later m s arrivals new few soon =
    let after = (on_message nodes now m s).service in
    elim (Bool-cases (truthy m.event)) [
      | inr silent ↦ silent_again later_nodes later m (run_events after arrivals) silent
      | inl event ↦ seen_again later_nodes later m (run_events after arrivals) (
          run_events-known arrivals after (event_key m) now 0 soon (omega (arith, few)) (
            subst (λ (o : Handled). Recent (event_key m) now 0 o.service.event_keys)
              (sym (new_event nodes now m s event new))
              (remember-Recent (event_key m) now s.event_keys
                (unknown_key (event_key m) s.event_keys new))))
    ]

on_message_bounded :
    (nodes : List PbxNode) (now : ℕ) (m : AmiMessage) (s : Service)
    → length s.event_keys ≤ 1000
    → length (on_message nodes now m s).service.event_keys ≤ 1000
unfolding on_message take_event
on_message_bounded nodes now m s h =
    if_either (λ (t : Handled). length t.service.event_keys ≤ 1000) (truthy m.event)
      (if is_known (event_key m) s.event_keys then unchanged s else take_event nodes now m s)
      (unchanged s)
      (if_either (λ (t : Handled). length t.service.event_keys ≤ 1000)
        (is_known (event_key m) s.event_keys) (unchanged s) (take_event nodes now m s) h
        (length-remember (event_key m) now s.event_keys))
      h

-- However many events arrive, no more than 1000 are remembered.
pub run_events_bounded :
    (arrivals : List Arrival) (s : Service)
    → length s.event_keys ≤ 1000
    → length (run_events s arrivals).event_keys ≤ 1000
unfolding run_events
run_events_bounded [] s h = h
run_events_bounded ((nodes, (now, m)) ∷ rest) s h =
    run_events_bounded rest (on_message nodes now m s).service (on_message_bounded nodes now m s h)
