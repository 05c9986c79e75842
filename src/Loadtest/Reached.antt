-- ===== src/Loadtest/Reached.antt =====
-- internal/loadtest/plan.go: the loop of `reachableUnits` ends, with exactly the units that can be reached.
use cloudcc.Base.{
  ℕ, zero, suc, ◌+◌, ◌≤◌, ◌≡◌, refl, sym, ap, ◌∙◌, subst, Bool, true, false, ◌||◌, some, List, [],
  ◌∷◌, ◌++◌, Text, str_eq, str_eq_iff, elem, elem-append, IsDistinct, IsDistinct-snoc, Within,
  length, length-append, length-le_of_Within, append_assoc, append-nil, if◌then◌else◌, arith,
  Bool-cases, inl, inr, ◌↔◌, List-cases,
}
use cloudcc.Loadtest.Reach.{
  Edge, Walk, key_string, subscribers, next_units, mark, visit, walk, places, reachable_units,
}
use cloudcc.Loadtest.Edges.{
  steps, Reaches, start, by_call, by_message, step_reaches, steps-elem, calls-next_units,
  publishes-next_units,
}

mark-append : (xs ys : List Text) (w : Walk) → mark (xs ++ ys) w ≡ mark ys (mark xs w)
unfolding mark
mark-append [] ys w = refl
mark-append (x ∷ xs) ys w = ground (
  arith,
  mark-append xs ys w,
  mark-append xs ys (record { reached = w.reached ++ x ∷ []; queue = w.queue ++ x ∷ [] }),
)

visit-mark :
    (all : List Edge) (unit : Text) (es : List Edge) (w : Walk)
    → visit all unit es w ≡ mark (steps all unit es) w
unfolding visit steps
visit-mark all unit [] w = unfold mark in refl
visit-mark all unit (e ∷ es) w = ground (
  arith,
  visit-mark all unit es w,
  visit-mark all unit es (mark (next_units all e) w),
  mark-append (next_units all e) (steps all unit es) w,
)

-- What marking a list of units does.
record Marked (xs : List Text) (w w' : Walk) : Type 0 where
  new : List Text
  reached_grows : w'.reached ≡ w.reached ++ new
  queue_grows : w'.queue ≡ w.queue ++ new
  distinct : IsDistinct w.reached → IsDistinct w'.reached
  members : (k : Text) → elem k w'.reached ≡ (elem k w.reached || elem k xs)

mark-Marked : (xs : List Text) (w : Walk) → Marked xs w (mark xs w)
unfolding mark elem
mark-Marked [] w = record {
  new = [];
  reached_grows = sym (append-nil w.reached);
  queue_grows = sym (append-nil w.queue);
  distinct = λ d. d;
  members = λ k. ground arith;
}
mark-Marked (x ∷ xs) w =
    marked (elem x w.reached) refl (mark-Marked xs w)
      (mark-Marked xs (record { reached = w.reached ++ x ∷ []; queue = w.queue ++ x ∷ [] }))
  where
    marked :
        (old : Bool)
        → elem x w.reached ≡ old
        → Marked xs w (mark xs w)
        → Marked xs
            (record { reached = w.reached ++ x ∷ []; queue = w.queue ++ x ∷ [] })
            (mark xs (record { reached = w.reached ++ x ∷ []; queue = w.queue ++ x ∷ [] }))
        → Marked (x ∷ xs) w (
            if old
            then mark xs w
            else mark xs (record { reached = w.reached ++ x ∷ []; queue = w.queue ++ x ∷ [] }))
    marked true e m n = record {
      new = m.new;
      reached_grows = m.reached_grows;
      queue_grows = m.queue_grows;
      distinct = m.distinct;
      members = λ k. ground (arith, m.members k, e, str_eq_iff k x);
    }
    marked false e m n = record {
      new = x ∷ n.new;
      reached_grows = n.reached_grows ∙ append_assoc w.reached (x ∷ []) n.new;
      queue_grows = n.queue_grows ∙ append_assoc w.queue (x ∷ []) n.new;
      distinct = λ d. n.distinct (IsDistinct-snoc w.reached x d e);
      members = λ k. ground (arith, n.members k, elem-append k w.reached (x ∷ []));
    }

-- Every unit that an edge leads to is among the places.
subscribers-places :
    (es : List Edge) (topic k : Text)
    → elem k (subscribers es topic) ≡ true
    → elem k (places es) ≡ true
unfolding subscribers places elem
subscribers-places [] topic k h = cc
subscribers-places (e ∷ es) topic k h = ground (arith, subscribers-places es topic k)

next_units-places :
    (all : List Edge) (e : Edge) (k : Text)
    → elem k (next_units all e) ≡ true
    → (str_eq k e.to.id || elem k (places all)) ≡ true
unfolding next_units elem
next_units-places all e k h = ground (arith, subscribers-places all (key_string e.to) k)

steps-places :
    (all : List Edge) (unit : Text) (es : List Edge) (k : Text)
    → elem k (steps all unit es) ≡ true
    → (elem k (places es) || elem k (places all)) ≡ true
unfolding steps places elem
steps-places all unit [] k h = cc
steps-places all unit (e ∷ es) k h = ground (
  arith,
  steps-places all unit es k,
  next_units-places all e k,
  elem-append k (next_units all e) (steps all unit es),
)

regroup :
    (done queue new : List Text) (unit : Text) {old grown more : List Text}
    → old ≡ done ++ unit ∷ queue
    → grown ≡ old ++ new
    → more ≡ queue ++ new
    → grown ≡ done ++ unit ∷ [] ++ more
regroup done queue new unit a b c = simp (a, b, c, append_assoc)

module _ (es : List Edge) (entry : Text) where
  -- The state of the loop: `done` are the units that were taken from the queue.
  record IsWalking (done : List Text) (w : Walk) : Type 0 where
    split : w.reached ≡ done ++ w.queue
    distinct : IsDistinct w.reached
    started : elem entry w.reached ≡ true
    sound : (k : Text) → elem k w.reached ≡ true → Reaches es entry k
    closed :
        (a b : Text) → elem a done ≡ true → elem b (steps es a es) ≡ true → elem b w.reached ≡ true

  reached_place : {k : Text} → Reaches es entry k → elem k (entry ∷ places es) ≡ true
  unfolding elem
  reached_place start = ground (arith, str_eq_iff entry entry)
  reached_place (by_call {a = a} e r i u s k) =
      let h = steps-elem es a es e e.to.id i u s (calls-next_units es e k) in
      ground (arith, steps-places es a es e.to.id h)
  reached_place (by_message {a = a} e f r i u s k j v t w) =
      let h = steps-elem es a es e f.from.id i u s (publishes-next_units es e f k j v t w) in
      ground (arith, steps-places es a es f.from.id h)

  round-IsWalking :
      (done : List Text) (w : Walk) (unit : Text) (queue : List Text)
      → w.queue ≡ unit ∷ queue
      → IsWalking done w
      → IsWalking
          (done ++ unit ∷ [])
          (visit es unit es (record { reached = w.reached; queue = queue }))
  unfolding elem
  round-IsWalking done w unit queue e h =
      let before : Walk = record { reached = w.reached; queue = queue } in
      let m = mark-Marked (steps es unit es) before in
      let from_queue : elem unit w.reached ≡ true =
        ap (elem unit) (h.split ∙ ap (λ q. done ++ q) e)
        ∙ ground (arith, elem-append unit done (unit ∷ queue), str_eq_iff unit unit) in
      subst (IsWalking (done ++ unit ∷ [])) (sym (visit-mark es unit es before)) (record {
        split =
            regroup done queue m.new unit (h.split ∙ ap (λ q. done ++ q) e) m.reached_grows
              m.queue_grows;
        distinct = m.distinct h.distinct;
        started = ground (arith, m.members entry, h.started);
        sound = λ k i. elim (Bool-cases (elem k w.reached)) [
          | inl old ↦ h.sound k old
          | inr new ↦
              step_reaches es entry unit k (h.sound unit from_queue)
                (ground (arith, m.members k, new, i))
        ];
        closed = λ a b i j. elim (Bool-cases (elem a done)) [
          | inl old ↦ ground (arith, h.closed a b, m.members b)
          | inr new ↦
              let here : a ≡ unit =
                ground (arith, elem-append a done (unit ∷ []), str_eq_iff a unit) in
              let found : elem b (steps es unit es) ≡ true =
                ap (λ u. elem b (steps es u es)) (sym here) ∙ j in
              ground (arith, m.members b, found)
        ];
      })

  length-done-le :
      (done : List Text) (w : Walk)
      → IsWalking done w
      → length done + length w.queue ≤ length (entry ∷ places es)
  length-done-le done w h =
      let inside : Within w.reached (entry ∷ places es) = (λ k i. reached_place (h.sound k i)) in
      omega (
        arith,
        length-le_of_Within w.reached (entry ∷ places es) h.distinct inside,
        ap length h.split,
        length-append done w.queue,
      )

  -- What the loop answers.
  record IsReached (found : List Text) : Type 0 where
    sound : (k : Text) → elem k found ≡ true → Reaches es entry k
    started : elem entry found ≡ true
    closed :
        (a b : Text) → elem a found ≡ true → elem b (steps es a es) ≡ true → elem b found ≡ true
    distinct : IsDistinct found

  ended : (done : List Text) (w : Walk) → w.queue ≡ [] → IsWalking done w → IsReached w.reached
  ended done w e h =
      let all : w.reached ≡ done = h.split ∙ (ap (λ q. done ++ q) e ∙ append-nil done) in
      record {
        sound = h.sound;
        started = h.started;
        closed = λ a b i j. h.closed a b (ap (elem a) (sym all) ∙ i) j;
        distinct = h.distinct;
      }

  walk_total :
      (fuel : ℕ) (done : List Text) (w : Walk)
      → length (entry ∷ places es) ≤ fuel + length done
      → IsWalking done w
      → (found : List Text) × (walk fuel es w ≡ some found) × IsReached found
  unfolding walk
  walk_total zero done w enough h = elim (List-cases w.queue) [
    | inl e ↦ (w.reached, rw e refl, ended done w e h)
    | inr (unit, queue, e) ↦ absurd (omega (arith, length-done-le done w h, ap length e))
  ]
  walk_total (suc fuel) done w enough h = elim (List-cases w.queue) [
    | inl e ↦ (w.reached, rw e refl, ended done w e h)
    | inr (unit, queue, e) ↦
        let (found, ends, good) =
          walk_total fuel (done ++ unit ∷ [])
            (visit es unit es (record { reached = w.reached; queue = queue }))
            (omega (arith, length-append done (unit ∷ [])))
            (round-IsWalking done w unit queue e h) in
        (found, rw e ends, good)
  ]

  complete :
      (found : List Text) → IsReached found → {k : Text} → Reaches es entry k → elem k found ≡ true
  complete found good start = good.started
  complete found good (by_call {a = a} e r i u s k) =
      good.closed a e.to.id (complete found good r)
        (steps-elem es a es e e.to.id i u s (calls-next_units es e k))
  complete found good (by_message {a = a} e f r i u s k j v t w) =
      good.closed a f.from.id (complete found good r)
        (steps-elem es a es e f.from.id i u s (publishes-next_units es e f k j v t w))

  -- The loop of `reachableUnits` ends, and then it has reached exactly the units that load can reach, each once.
  pub reachable_units_lem :
      (found : List Text) × (reachable_units es entry ≡ some found)
      × IsDistinct found
      × ((k : Text) → (elem k found ≡ true) ↔ Reaches es entry k)
  unfolding reachable_units elem
  reachable_units_lem =
      let at_start : IsWalking [] (record { reached = entry ∷ []; queue = entry ∷ [] }) = record {
        split = refl;
        distinct = (refl, tt);
        started = ground (arith, str_eq_iff entry entry);
        sound = λ k h.
            let here : entry ≡ k = ground (arith, str_eq_iff k entry) in
            subst (Reaches es entry) here start;
        closed = λ a b i j. cc;
      } in
      let (found, ends, good) =
        walk_total (length (entry ∷ places es)) []
          (record { reached = entry ∷ []; queue = entry ∷ [] }) (omega arith) at_start in
      (found, ends, good.distinct, λ k. (good.sound k, complete found good))
