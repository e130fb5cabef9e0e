-- ===== src/Events/Bus/Delivery.antt =====
-- aws_light/dashboard/event_bus.py: what each subscriber receives, and the bounds of the buffers.
use aws_light.Prelude.{
  ℕ, ◌+◌, ◌-◌, ◌≤◌, ◌<◌, ◌≡◌, ◌≢◌, ◌∙◌, refl, Bool, true, false, Option, none, some, List, [], ◌∷◌,
  ◌++◌, arith, ltb, length, length-append, length-drop, if◌then◌else◌, ◌==◌, All, All-append,
  Bool-cases, inl, inr,
}
use aws_light.Events.Bus.{
  Subscriber, EventBus, append_recent, recent_event_buffer_size, queue_maxsize, offer, dead_queues,
  remove, remove_all, publish, subscribe, unsubscribe,
}

-- is this queue among the dead?
listed : ℕ → List ℕ → Bool
listed i [] = false
listed i (j ∷ ids) = if i == j then true else listed i ids

module _ {E : Type 0} where
  -- the queue that a subscriber sees
  unfoldable pub queue_of : ℕ → List (Subscriber E) → Option (List E)
  queue_of i [] = none
  queue_of i (s ∷ subs) = if s.queue_id == i then some s.queue else queue_of i subs

  abbrev Absent : ℕ → List (Subscriber E) → Type 0
  Absent i = All (λ s. s.queue_id ≢ i)

  -- queues have identities of their own
  abbrev pub Distinct : List (Subscriber E) → Type 0
  Distinct [] = Unit
  Distinct (s ∷ subs) = Absent s.queue_id subs × Distinct subs

  queue_of-Absent : (i : ℕ) (subs : List (Subscriber E)) → Absent i subs → queue_of i subs ≡ none
  unfolding queue_of
  queue_of-Absent i [] h = refl
  queue_of-Absent i (s ∷ subs) h = ground (arith, queue_of-Absent i subs h.1)

  Absent-remove : (i j : ℕ) (subs : List (Subscriber E)) → Absent i subs → Absent i (remove j subs)
  unfolding remove
  Absent-remove i j [] h = tt
  Absent-remove i j (s ∷ subs) h = elim (Bool-cases (s.queue_id == j)) [
    | inl e ↦ rw e h.1
    | inr e ↦ rw e (h.0, Absent-remove i j subs h.1)
  ]

  Distinct-remove : (j : ℕ) (subs : List (Subscriber E)) → Distinct subs → Distinct (remove j subs)
  unfolding remove
  Distinct-remove j [] h = tt
  Distinct-remove j (s ∷ subs) h = elim (Bool-cases (s.queue_id == j)) [
    | inl e ↦ rw e h.1
    | inr e ↦ rw e (Absent-remove s.queue_id j subs h.0, Distinct-remove j subs h.1)
  ]

  queue_of-remove :
      (i j : ℕ) (subs : List (Subscriber E))
      → Distinct subs
      → queue_of i (remove j subs) ≡ (if i == j then none else queue_of i subs)
  unfolding remove queue_of
  queue_of-remove i j [] h = ground arith
  queue_of-remove i j (s ∷ subs) h =
      ground (arith, queue_of-Absent s.queue_id subs h.0, queue_of-remove i j subs h.1)

  queue_of-remove_all :
      (i : ℕ) (ids : List ℕ) (subs : List (Subscriber E))
      → Distinct subs
      → queue_of i (remove_all ids subs) ≡ (if listed i ids then none else queue_of i subs)
  unfolding remove_all listed
  queue_of-remove_all i [] subs h = refl
  queue_of-remove_all i (j ∷ ids) subs h = ground (
    arith,
    queue_of-remove_all i ids (remove j subs) (Distinct-remove j subs h),
    queue_of-remove i j subs h,
  )

  Distinct-remove_all :
      (ids : List ℕ) (subs : List (Subscriber E)) → Distinct subs → Distinct (remove_all ids subs)
  unfolding remove_all
  Distinct-remove_all [] subs h = h
  Distinct-remove_all (j ∷ ids) subs h =
      Distinct-remove_all ids (remove j subs) (Distinct-remove j subs h)

  Absent-offer :
      (i : ℕ) (event : E) (subs : List (Subscriber E)) → Absent i subs → Absent i (offer event subs)
  unfolding offer
  Absent-offer i event [] h = tt
  Absent-offer i event (s ∷ subs) h = (ground (arith, h.0), Absent-offer i event subs h.1)

  Distinct-offer :
      (event : E) (subs : List (Subscriber E)) → Distinct subs → Distinct (offer event subs)
  unfolding offer
  Distinct-offer event [] h = tt
  Distinct-offer event (s ∷ subs) h = elim (Bool-cases (ltb (length s.queue) queue_maxsize)) [
    | inl e ↦ rw e (Absent-offer s.queue_id event subs h.0, Distinct-offer event subs h.1)
    | inr e ↦ rw e (Absent-offer s.queue_id event subs h.0, Distinct-offer event subs h.1)
  ]

  -- what one queue becomes when an event is offered to it
  abbrev pub delivered : E → Option (List E) → Option (List E)
  delivered event none = none
  delivered event (some q) = if ltb (length q) queue_maxsize then some (q ++ event ∷ []) else none

  listed-Absent :
      (i : ℕ) (subs : List (Subscriber E)) → Absent i subs → listed i (dead_queues subs) ≡ false
  unfolding listed dead_queues
  listed-Absent i [] h = refl
  listed-Absent i (s ∷ subs) h = ground (arith, h.0, listed-Absent i subs h.1)

  offered :
      (i : ℕ) (event : E) (subs : List (Subscriber E))
      → Distinct subs
      → (if listed i (dead_queues subs) then none else queue_of i (offer event subs))
        ≡ delivered event (queue_of i subs)
  unfolding listed dead_queues offer queue_of
  offered i event [] h = refl
  offered i event (s ∷ subs) h = ground (
    arith,
    offered i event subs h.1,
    listed-Absent s.queue_id subs h.0,
    queue_of-Absent s.queue_id subs h.0,
  )

  -- Publishing puts the event at the end of every queue that has room and drops exactly the
  -- subscribers whose queue is full, where the queues have identities of their own.
  pub queue_of-publish :
      (bus : EventBus E) (event : E) (i : ℕ)
      → Distinct bus.subscribers
      → queue_of i (publish bus event).subscribers ≡ delivered event (queue_of i bus.subscribers)
  unfolding publish
  queue_of-publish bus event i h =
      queue_of-remove_all i (dead_queues bus.subscribers) (offer event bus.subscribers)
        (Distinct-offer event bus.subscribers h)
      ∙ offered i event bus.subscribers h

  -- What holds of every bus: queues of their own, none over its size, and a short history.
  pub record IsValid (bus : EventBus E) : Type 0 where
    pub distinct : Distinct bus.subscribers
    pub known : All (λ s. s.queue_id < bus.next_queue_id) bus.subscribers
    pub queues : All (λ s. length s.queue ≤ queue_maxsize) bus.subscribers
    pub recent : length bus.recent_events ≤ recent_event_buffer_size

  All-remove :
      (P : Subscriber E → Type 0) (j : ℕ) (subs : List (Subscriber E))
      → All P subs
      → All P (remove j subs)
  unfolding remove
  All-remove P j [] h = tt
  All-remove P j (s ∷ subs) h = elim (Bool-cases (s.queue_id == j)) [
    | inl e ↦ rw e h.1
    | inr e ↦ rw e (h.0, All-remove P j subs h.1)
  ]

  All-remove_all :
      (P : Subscriber E → Type 0) (ids : List ℕ) (subs : List (Subscriber E))
      → All P subs
      → All P (remove_all ids subs)
  unfolding remove_all
  All-remove_all P [] subs h = h
  All-remove_all P (j ∷ ids) subs h = All-remove_all P ids (remove j subs) (All-remove P j subs h)

  known-offer :
      (n : ℕ) (event : E) (subs : List (Subscriber E))
      → All (λ s. s.queue_id < n) subs
      → All (λ s. s.queue_id < n) (offer event subs)
  unfolding offer
  known-offer n event [] h = tt
  known-offer n event (s ∷ subs) h = (ground (arith, h.0), known-offer n event subs h.1)

  queues-offer :
      (event : E) (subs : List (Subscriber E))
      → All (λ s. length s.queue ≤ queue_maxsize) subs
      → All (λ s. length s.queue ≤ queue_maxsize) (offer event subs)
  unfolding offer
  queues-offer event [] h = tt
  queues-offer event (s ∷ subs) h =
      (ground (arith, h.0, length-append s.queue (event ∷ [])), queues-offer event subs h.1)

  -- Publishing keeps the identities of the queues apart and every queue and the history within
  -- their bounds.
  pub publish-IsValid : (bus : EventBus E) (event : E) → IsValid bus → IsValid (publish bus event)
  unfolding publish append_recent
  publish-IsValid bus event v =
      let all = bus.recent_events ++ event ∷ [] in
      record {
        distinct = Distinct-remove_all _ _ (Distinct-offer event bus.subscribers v.distinct);
        known = All-remove_all _ _ _ (known-offer bus.next_queue_id event bus.subscribers v.known);
        queues = All-remove_all _ _ _ (queues-offer event bus.subscribers v.queues);
        recent = omega (arith, length-drop (length all - recent_event_buffer_size) all);
      }

  Absent-append :
      (i : ℕ) (subs : List (Subscriber E)) (s : Subscriber E)
      → All (λ s. s.queue_id < i) subs
      → s.queue_id ≡ i
      → Distinct subs
      → Distinct (subs ++ s ∷ [])
  Absent-append i [] s h e d = (tt, tt)
  Absent-append i (t ∷ subs) s h e d =
      (All-append _ subs (s ∷ []) d.0 (omega arith, tt), Absent-append i subs s h.1 e d.1)

  known-weaken :
      (n : ℕ) (subs : List (Subscriber E))
      → All (λ s. s.queue_id < n) subs
      → All (λ s. s.queue_id < n + 1) subs
  known-weaken n [] h = tt
  known-weaken n (s ∷ subs) h = (omega arith, known-weaken n subs h.1)

  pub subscribe-IsValid : (bus : EventBus E) → IsValid bus → IsValid (subscribe bus).1
  unfolding subscribe
  subscribe-IsValid bus v = record {
    distinct = Absent-append bus.next_queue_id bus.subscribers _ v.known refl v.distinct;
    known = All-append _ bus.subscribers _ (known-weaken _ _ v.known) (omega arith, tt);
    queues = All-append _ bus.subscribers _ v.queues (omega arith, tt);
    recent = v.recent;
  }

  pub unsubscribe-IsValid : (bus : EventBus E) (i : ℕ) → IsValid bus → IsValid (unsubscribe bus i)
  unfolding unsubscribe
  unsubscribe-IsValid bus i v = record {
    distinct = Distinct-remove i bus.subscribers v.distinct;
    known = All-remove _ i bus.subscribers v.known;
    queues = All-remove _ i bus.subscribers v.queues;
    recent = v.recent;
  }
