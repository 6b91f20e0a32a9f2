-- ===== src/Auction/Session/WriteQueue.antt =====
-- `QueueWrite`, `DoWrite` and `OnWrite` of session.cpp. The strand runs them one at a time; `in_flight`
-- is the message of the pending `async_write`, and `sent` are the messages that were written.
use architecture_course.Prelude.{
  Option, none, some, List, [], ◌∷◌, ◌++◌, Bool, true, false, ◌≡◌, refl, ◌∙◌, sym, ap, arith, ◌⊎◌,
  inl,
}
use mathlib.Core.Path.{ap₂}
use mathlib.Core.List.{append_assoc}

pub record Writer {ℓ} (P : Type ℓ) : Type ℓ where
  pub write_queue : List P
  pub in_flight : Option P
  pub sent : List P
  pub registered : Bool

module _ {ℓ} {P : Type ℓ} where
  abbrev pub front : List P → Option P
  front [] = none
  front (p ∷ ps) = some p

  abbrev pub pop_front : List P → List P
  pop_front [] = []
  pop_front (p ∷ ps) = ps

  abbrev pub is_idle : List P → Bool
  is_idle [] = true
  is_idle (p ∷ ps) = false

  unfoldable pub new_writer : Writer P
  new_writer = record { write_queue = []; in_flight = none; sent = []; registered = true }

  unfoldable pub do_write : Writer P → Writer P
  do_write w = record w { in_flight = front w.write_queue }

  -- The function that `QueueWrite` posts: start a write only if none was pending.
  unfoldable pub queue_write : P → Writer P → Writer P
  unfolding do_write
  queue_write payload w =
      let pushed = record w { write_queue = w.write_queue ++ (payload ∷ []) } in
      elim (is_idle w.write_queue) [ true ↦ do_write pushed | false ↦ pushed ]

  -- `OnWrite` without an error, for the message `payload` that was in flight.
  unfoldable pub on_write : P → Writer P → Writer P
  unfolding do_write
  on_write payload w =
      let popped = record w {
        write_queue = pop_front w.write_queue;
        in_flight = none;
        sent = w.sent ++ (payload ∷ []);
      } in
      elim (is_idle popped.write_queue) [ true ↦ popped | false ↦ do_write popped ]

  unfoldable pub on_write_error : Writer P → Writer P
  on_write_error w = record w { in_flight = none; registered = false }

  -- The states that a session reaches while the messages of the list are posted in this order. A
  -- completion comes only for a pending write.
  pub data Posted : List P → Writer P → Type ℓ where
    start : Posted [] new_writer
    posts :
        {ps qs : List P} {w : Writer P} (p : P)
        → Posted ps w
        → qs ≡ ps ++ (p ∷ [])
        → Posted qs (queue_write p w)
    completes :
        {ps : List P} {w : Writer P} (p : P)
        → Posted ps w
        → w.in_flight ≡ some p
        → Posted ps (on_write p w)
    fails :
        {ps : List P} {w : Writer P} (p : P)
        → Posted ps w
        → w.in_flight ≡ some p
        → Posted ps (on_write_error w)

  -- A registered session is writing the front of its queue; a failed one writes nothing, and has the
  -- message that failed still in its queue.
  abbrev Pending : Writer P → Type ℓ
  Pending w =
      ((w.registered ≡ true) × (w.in_flight ≡ front w.write_queue))
      ⊎ ((w.registered ≡ false) × (w.in_flight ≡ none) × (is_idle w.write_queue ≡ false))

  pub record IsInOrder (ps : List P) (w : Writer P) : Type ℓ where
    pub order : w.sent ++ w.write_queue ≡ ps
    pub pending : Pending w

  queue_write_frame :
      (p : P) (w : Writer P)
      → ((queue_write p w).sent ≡ w.sent)
        × ((queue_write p w).write_queue ≡ w.write_queue ++ (p ∷ []))
  unfolding queue_write
  queue_write_frame p w = ground arith

  on_write_frame :
      (p : P) (w : Writer P)
      → ((on_write p w).sent ≡ w.sent ++ (p ∷ []))
        × ((on_write p w).write_queue ≡ pop_front w.write_queue)
  unfolding on_write
  on_write_frame p w = ground arith

  posts-Pending :
      (p : P) (w : Writer P) (q : List P)
      → w.write_queue ≡ q
      → Pending w
      → Pending (queue_write p w)
  unfolding queue_write
  posts-Pending p w [] e h = ground arith
  posts-Pending p w (x ∷ xs) e h = ground arith

  posts-IsInOrder :
      (ps : List P) (w : Writer P) (p : P)
      → IsInOrder ps w
      → IsInOrder (ps ++ (p ∷ [])) (queue_write p w)
  posts-IsInOrder ps w p h =
      let (sent, queue) = queue_write_frame p w in
      record {
        order =
            ap₂ ◌++◌ sent queue
            ∙ sym (append_assoc w.sent w.write_queue (p ∷ []))
            ∙ ap (λ l. l ++ (p ∷ [])) h.order;
        pending = posts-Pending p w _ refl h.pending;
      }

  -- What is in flight is the front of the queue of a registered session.
  completes-Pending :
      (p : P) (w : Writer P) (q : List P)
      → w.write_queue ≡ q
      → w.in_flight ≡ some p
      → Pending w
      → (pop_front q ≡ pop_front w.write_queue) × (q ≡ p ∷ pop_front q) × Pending (on_write p w)
  unfolding on_write
  completes-Pending p w [] e f h = absurd (ground arith)
  completes-Pending p w (x ∷ []) e f h = (ground arith, ground arith, ground arith)
  completes-Pending p w (x ∷ y ∷ ys) e f h = (ground arith, ground arith, ground arith)

  completes-IsInOrder :
      (ps : List P) (w : Writer P) (p : P)
      → w.in_flight ≡ some p
      → IsInOrder ps w
      → IsInOrder ps (on_write p w)
  completes-IsInOrder ps w p f h =
      let (sent, queue) = on_write_frame p w in
      let (_, head, pending) = completes-Pending p w w.write_queue refl f h.pending in
      record {
        order =
            ap₂ ◌++◌ sent queue
            ∙ append_assoc w.sent (p ∷ []) (pop_front w.write_queue)
            ∙ ap (λ l. w.sent ++ l) (sym head)
            ∙ h.order;
        pending = pending;
      }

  fails-Pending :
      (p : P) (w : Writer P) (q : List P)
      → w.write_queue ≡ q
      → w.in_flight ≡ some p
      → Pending w
      → Pending (on_write_error w)
  unfolding on_write_error
  fails-Pending p w [] e f h = absurd (ground arith)
  fails-Pending p w (x ∷ xs) e f h = ground arith

  fails-IsInOrder :
      (ps : List P) (w : Writer P) (p : P)
      → w.in_flight ≡ some p
      → IsInOrder ps w
      → IsInOrder ps (on_write_error w)
  fails-IsInOrder ps w p f h = record {
    order = unfold on_write_error in h.order;
    pending = fails-Pending p w _ refl f h.pending;
  }

  -- The messages that a session wrote, followed by those in its queue, are the messages that were
  -- posted, each once and in order. While the session is registered it is writing the front of its
  -- queue, if there is one; after a failed write it writes nothing more.
  pub Posted-IsInOrder : {ps : List P} {w : Writer P} → Posted ps w → IsInOrder ps w
  Posted-IsInOrder start = unfold new_writer in record { order = refl; pending = inl (refl, refl) }
  Posted-IsInOrder (posts {ps} {qs} {w} p r e) = rw e (posts-IsInOrder ps w p (Posted-IsInOrder r))
  Posted-IsInOrder (completes {ps} {w} p r f) = completes-IsInOrder ps w p f (Posted-IsInOrder r)
  Posted-IsInOrder (fails {ps} {w} p r f) = fails-IsInOrder ps w p f (Posted-IsInOrder r)
