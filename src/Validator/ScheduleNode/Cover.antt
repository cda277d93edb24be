-- ===== src/Validator/ScheduleNode/Cover.antt =====
-- A window that is open at a moment has a segment that covers the moment, and segments that cover one
-- moment overlap.
use mathlib.Core.List.{Memᴰ}
use essentials_calls.Base.{
  ℕ, ◌*◌, ◌≤◌, ◌<◌, String, ◌≡◌, ◌≢◌, refl, Bool, true, false, ◌&&◌, some, List, [], ◌∷◌, arith,
  inl, inr, ◌⊎◌, sym,
}
use essentials_calls.Base.{any, or_false, nat_eq, ltb, leb, ==_iff, Bool-cases}
use essentials_calls.Base.Texts.{codes}
use essentials_calls.Model.{Number, pos, negsuc, fraction, ScheduleWindow}
use essentials_calls.Schedule.{
  LocalParts, hhmm_minutes, minutes, has_day, previous_weekday, is_window_open,
}
use essentials_calls.Validator.ScheduleNode.{
  Segment, match_time, time_minutes, following_day, day_segments, window_segments, overlaps,
  some_overlap,
}
use essentials_calls.Validator.ScheduleNode.Soundness.{IsWindow}

-- A segment covers a minute of a weekday.
pub record Covers (day minute : ℕ) (g : Segment) : Type 0 where
  pub same_day : g.day ≡ day
  pub from : g.start ≤ minute
  pub until : minute < g.end

-- Two segments of different windows that cover the same minute overlap.
Covers-overlaps :
    (day minute : ℕ) (g h : Segment)
    → Covers day minute g
    → Covers day minute h
    → g.id ≢ h.id
    → overlaps g h ≡ true
unfolding overlaps
Covers-overlaps day minute g h c d ne = ground (arith, ==_iff g.id h.id)

any-false :
    {A : Type 0} (p : A → Bool) (xs : List A) {x : A} → any p xs ≡ false → Memᴰ x xs → p x ≡ false
any-false p [] h m = elim m [ ]
any-false p (y ∷ ys) h (Memᴰ.head e) = rw e (or_false _ _ h).0
any-false p (y ∷ ys) h (Memᴰ.tail m) = any-false p ys (or_false _ _ h).1 m

-- Without an overlap, two segments that cover the same minute belong to the same window.
pub one_cover :
    (day minute : ℕ) (gs : List Segment) {g h : Segment}
    → some_overlap gs ≡ false
    → Memᴰ g gs
    → Memᴰ h gs
    → Covers day minute g
    → Covers day minute h
    → ¬ (g.id ≢ h.id)
unfolding some_overlap
one_cover day minute [] no_overlap m n c d ne = elim m [ ]
one_cover day minute (a ∷ rest) no_overlap (Memᴰ.head e) (Memᴰ.head f) c d ne = ne (cc (e, f))
one_cover day minute (a ∷ rest) {g} {h} no_overlap (Memᴰ.head e) (Memᴰ.tail n) c d ne =
    let miss : overlaps g h ≡ false =
      rw e (any-false (overlaps a) rest (or_false _ _ no_overlap).0 n) in
    cc (miss, Covers-overlaps day minute g h c d ne)
one_cover day minute (a ∷ rest) {g} {h} no_overlap (Memᴰ.tail m) (Memᴰ.head f) c d ne =
    let miss : overlaps h g ≡ false =
      rw f (any-false (overlaps a) rest (or_false _ _ no_overlap).0 m) in
    cc (miss, Covers-overlaps day minute h g d c (λ e. ne (sym e)))
one_cover day minute (a ∷ rest) no_overlap (Memᴰ.tail m) (Memᴰ.tail n) c d ne =
    one_cover day minute rest (or_false _ _ no_overlap).1 m n c d ne

-- The decision reads a time as the validator does.
match_time-minutes : (l : List ℕ) (m : ℕ) → match_time l ≡ some m → hhmm_minutes l ≡ m
unfolding match_time hhmm_minutes
match_time-minutes (a ∷ b ∷ c ∷ d ∷ e ∷ []) m h = ground arith
match_time-minutes _ m h = cc

pub minutes_agree : (text : String) (m : ℕ) → time_minutes text ≡ some m → minutes text ≡ m
unfolding time_minutes minutes
minutes_agree text m h = match_time-minutes (codes text) m h

match_time_lt : (l : List ℕ) (m : ℕ) → match_time l ≡ some m → m < 1440
unfolding match_time
match_time_lt (a ∷ b ∷ c ∷ d ∷ e ∷ []) m h = ground arith
match_time_lt _ m h = cc

pub time_minutes_lt : (text : String) (m : ℕ) → time_minutes text ≡ some m → m < 1440
unfolding time_minutes
time_minutes_lt text m h = match_time_lt (codes text) m h

-- A moment of the week.
pub record IsInstant (now : LocalParts) : Type 0 where
  pub first : 1 ≤ now.weekday
  pub last : now.weekday ≤ 7
  pub minute : now.minutes < 1440

module _ (id : String) (start end : ℕ) where
  -- The segment of a weekday of a window that ends on the same day.
  same_day-mem :
      (d : ℕ) (ds : List Number)
      → ltb start end ≡ true
      → has_day d ds ≡ true
      → Memᴰ (record { id = id; day = d; start = start; end = end }) (day_segments id start end ds)
  unfolding day_segments
  same_day-mem d [] lt h = cc
  same_day-mem d (pos n ∷ xs) lt h = elim (Bool-cases (nat_eq n d)) [
    | inl e ↦ rw lt (Memᴰ.head (ground arith))
    | inr e ↦ rw lt (Memᴰ.tail (same_day-mem d xs lt (ground arith)))
  ]
  same_day-mem d (negsuc n ∷ xs) lt h = rw lt (Memᴰ.tail (same_day-mem d xs lt h))
  same_day-mem d (fraction s w t ∷ xs) lt h = rw lt (Memᴰ.tail (same_day-mem d xs lt h))

  -- The two segments of a weekday of a window that crosses midnight.
  overnight-mem :
      (d : ℕ) (ds : List Number)
      → ltb start end ≡ false
      → has_day d ds ≡ true
      → Memᴰ
          (record { id = id; day = d; start = start; end = 24 * 60 })
          (day_segments id start end ds)
        × Memᴰ
            (record { id = id; day = following_day d; start = 0; end = end })
            (day_segments id start end ds)
  unfolding day_segments
  overnight-mem d [] lt h = cc
  overnight-mem d (pos n ∷ xs) lt h = elim (Bool-cases (nat_eq n d)) [
    | inl e ↦
        let same : n ≡ d = ground arith in
        rw lt (rw same (Memᴰ.head refl, Memᴰ.tail (Memᴰ.head refl)))
    | inr e ↦
        let (a, b) = overnight-mem d xs lt (ground arith) in
        rw lt (Memᴰ.tail (Memᴰ.tail a), Memᴰ.tail (Memᴰ.tail b))
  ]
  overnight-mem d (negsuc n ∷ xs) lt h =
      let (a, b) = overnight-mem d xs lt h in
      rw lt (Memᴰ.tail (Memᴰ.tail a), Memᴰ.tail (Memᴰ.tail b))
  overnight-mem d (fraction s w t ∷ xs) lt h =
      let (a, b) = overnight-mem d xs lt h in
      rw lt (Memᴰ.tail (Memᴰ.tail a), Memᴰ.tail (Memᴰ.tail b))

following-previous : (d : ℕ) → 1 ≤ d → d ≤ 7 → following_day (previous_weekday d) ≡ d
unfolding previous_weekday
following-previous d a b = ground arith

-- What the test of an open window says, by the two kinds of windows.
module _ (now : LocalParts) (w : ScheduleWindow) (s e : ℕ) (start : minutes w.start ≡ s)
    (end : minutes w.end ≡ e) (h : is_window_open now w ≡ true) where
  open_by_day :
      ltb s e ≡ true
      → (has_day now.weekday w.weekdays ≡ true) × (s ≤ now.minutes) × (now.minutes < e)
  unfolding is_window_open
  open_by_day lt = ground arith

  open_by_night :
      ltb s e ≡ false
      → (has_day now.weekday w.weekdays ≡ true) × (s ≤ now.minutes)
        ⊎ (has_day (previous_weekday now.weekday) w.weekdays ≡ true) × (now.minutes < e)
  unfolding is_window_open
  open_by_night ge = elim (Bool-cases (has_day now.weekday w.weekdays && leb s now.minutes)) [
    | inl a ↦ inl (ground arith, ground arith)
    | inr b ↦ inr (ground arith, ground arith)
  ]

abbrev pub HasCover : LocalParts → ScheduleWindow → Type 0
HasCover now w =
    (g : Segment) × Memᴰ g (window_segments w) × (g.id ≡ w.id) × Covers now.weekday now.minutes g

-- An open window has a segment that covers the moment.
pub open-covered :
    (now : LocalParts) (w : ScheduleWindow)
    → IsInstant now
    → IsWindow w
    → is_window_open now w ≡ true
    → HasCover now w
unfolding window_segments
open-covered now w i f h =
    rw (f.start, f.end)
      (rw (times_unequal f.opens f.closes f.differ) (go (Bool-cases (ltb f.opens f.closes))))
  where
    s : minutes w.start ≡ f.opens
    s = minutes_agree w.start f.opens f.start

    e : minutes w.end ≡ f.closes
    e = minutes_agree w.end f.closes f.end

    times_unequal : (a b : ℕ) → a ≢ b → nat_eq a b ≡ false
    times_unequal a b ne = ground arith

    segments : List Segment
    segments = day_segments w.id f.opens f.closes w.weekdays

    Target : Type 0
    Target = (g : Segment) × Memᴰ g segments × (g.id ≡ w.id) × Covers now.weekday now.minutes g

    night :
        ltb f.opens f.closes ≡ false
        → (has_day now.weekday w.weekdays ≡ true) × (f.opens ≤ now.minutes)
          ⊎ (has_day (previous_weekday now.weekday) w.weekdays ≡ true) × (now.minutes < f.closes)
        → Target
    night ge (inl (day, from)) = (
      _,
      (overnight-mem w.id f.opens f.closes now.weekday w.weekdays ge day).0,
      refl,
      record { same_day = refl; from = from; until = i.minute },
    )
    night ge (inr (day, until)) = (
      _,
      (overnight-mem w.id f.opens f.closes (previous_weekday now.weekday) w.weekdays ge day).1,
      refl,
      record {
        same_day = following-previous now.weekday i.first i.last;
        from = omega arith;
        until = until;
      },
    )

    go : (ltb f.opens f.closes ≡ true) ⊎ (ltb f.opens f.closes ≡ false) → Target
    go (inl lt) =
        let (day, from, until) = open_by_day now w f.opens f.closes s e h lt in
        (
          _,
          same_day-mem w.id f.opens f.closes now.weekday w.weekdays lt day,
          refl,
          record { same_day = refl; from = from; until = until },
        )
    go (inr ge) = night ge (open_by_night now w f.opens f.closes s e h ge)
