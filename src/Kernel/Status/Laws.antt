-- ===== src/Kernel/Status/Laws.antt =====
-- What the status calls of kernel/scheduler.c and kernel/queues.c report.
use calm_os.Base.{
  take, ℕ, zero, suc, ◌+◌, ◌-◌, ◌≡◌, pos, Bool, List, [], ◌∷◌, map, refl, ap, sym, ◌∙◌, inl, inr,
  arith, length, if◌then◌else◌, ltb, Bool-cases,
}
use calm_os.Kernel.State.{Sys, nbproc, nbqueue, is_dead}
use calm_os.Kernel.Messages.{is_queue_free}
use calm_os.Kernel.Status.{fill, process_status, queue_status, processes_status, queues_status}

-- The used ones of `n` indices from `i` on
abbrev pub used : (ℕ → Bool) → ℕ → ℕ → List ℕ
used unused zero i = []
used unused (suc n) i = if unused i then used unused n (i + 1) else i ∷ used unused n (i + 1)

take_nil : {A : Type 0} (n : ℕ) → take {A = A} n [] ≡ []
take_nil zero = refl
take_nil (suc n) = refl

take_zero : {A : Type 0} (xs : List A) (n : ℕ) → n ≡ 0 → take n xs ≡ []
take_zero xs zero h = refl
take_zero xs (suc n) h = absurd (omega arith)

module _ {A : Type 0} (unused : ℕ → Bool) (entry : ℕ → A) (count : ℕ) where
  fill_lem :
      (n i alive : ℕ)
      → ((fill unused entry count n i alive).0 ≡ alive + length (used unused n i))
        × ((fill unused entry count n i alive).1
            ≡ map entry (take (count - alive) (used unused n i)))
  unfolding fill
  fill_lem zero i alive = (omega arith, ap (map entry) (sym (take_nil (count - alive))))
  fill_lem (suc n) i alive =
      let ys = used unused n (i + 1) in
      elim (Bool-cases (unused i)) [
        | inl u ↦ rw u (fill_lem n (i + 1) alive)
        | inr u ↦
            let ih = fill_lem n (i + 1) (alive + 1) in
            let total : (fill unused entry count n (i + 1) (alive + 1)).0
                ≡ alive + suc (length ys) =
              ih.0 ∙ omega arith in
            elim (Bool-cases (ltb alive count)) [
              | inl y ↦
                  let more : take (count - alive) (i ∷ ys) ≡ i ∷ take (count - (alive + 1)) ys =
                    ap (λ k. take k (i ∷ ys)) {y = suc (count - (alive + 1))} (ground arith) in
                  rw (u, y) (total, ap (λ es. entry i ∷ es) ih.1 ∙ ap (map entry) (sym more))
              | inr full ↦
                  rw (u, full)
                    (
                      total,
                      ih.1
                          ∙ ap (map entry) (take_zero ys (count - (alive + 1)) (ground arith))
                          ∙ ap (map entry)
                              (sym (take_zero (i ∷ ys) (count - alive) (ground arith))),
                    )
            ]
      ]

-- With a count that is not negative `processes_status` returns the number of all processes that are not
-- dead, and writes the entries of the first of them, in the order of their pids, as many as the count
-- says.
pub processes_status_lem :
    (count : ℕ) (s : Sys)
    → ((processes_status (pos count) s).0
        ≡ pos (length (used (λ p. is_dead (s.processes p).state) nbproc 0)))
      × ((processes_status (pos count) s).1
          ≡ map
              (process_status s)
              (take count (used (λ p. is_dead (s.processes p).state) nbproc 0)))
unfolding processes_status
processes_status_lem count s =
    let l = fill_lem (λ p. is_dead (s.processes p).state) (process_status s) count nbproc 0 0 in
    (
      ap pos (l.0 ∙ omega arith),
      l.1
          ∙ ap
              (λ k.
                map (process_status s)
                  (take k (used (λ p. is_dead (s.processes p).state) nbproc 0)))
              (omega arith),
    )

-- With a count that is not negative `queues_status` returns the number of all queues in use, and writes
-- the entries of the first of them, in the order of their numbers, as many as the count says.
pub queues_status_lem :
    (count : ℕ) (s : Sys)
    → ((queues_status (pos count) s).0
        ≡ pos (length (used (λ f. is_queue_free (s.queues f)) nbqueue 0)))
      × ((queues_status (pos count) s).1
          ≡ map (queue_status s) (take count (used (λ f. is_queue_free (s.queues f)) nbqueue 0)))
unfolding queues_status
queues_status_lem count s =
    let l = fill_lem (λ f. is_queue_free (s.queues f)) (queue_status s) count nbqueue 0 0 in
    (
      ap pos (l.0 ∙ omega arith),
      l.1
          ∙ ap
              (λ k.
                map (queue_status s) (take k (used (λ f. is_queue_free (s.queues f)) nbqueue 0)))
              (omega arith),
    )
