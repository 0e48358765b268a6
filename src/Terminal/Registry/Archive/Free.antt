-- ===== src/Terminal/Registry/Archive/Free.antt =====
-- Which name archiveCurrentHistory of registry.go gives to a history.
use term_bridge.Prelude.{
  ◌≢◌, ℕ, zero, suc, ◌+◌, ◌<◌, String, not, ◌≡◌, refl, sym, subst, ◌∙◌, if_both, none, some, ok,
  arith, ◌⊎◌, inl, inr,
}
use term_bridge.Terminal.Registry.Archive.{
  Stat, there, missing, stat_failed, Files, ArchiveError, no_stat, no_dir, no_rename, exhausted,
  Archived, archive_name, move_to, archive_loop, archive_current_history, not_archived,
}

module _ (f : Files) (path id : String) where
  -- The path of the archive with an index.
  abbrev pub place : ℕ → String
  place i = f.beside path (archive_name f id i)

  -- What the loop leaves that starts at index i: an error and no rename, of which "exhausted" means
  -- that every name is taken; or a rename to the first name that is free.
  pub data IsArchived (i n : ℕ) : Archived → Type 0 where
    nothing_moved : (e : ArchiveError) → e ≢ exhausted → IsArchived i n (not_archived e)
    all_taken :
        ((k : ℕ) → k < n → f.stat (place (i + k)) ≡ there) → IsArchived i n (not_archived exhausted)
    moved :
        (k : ℕ)
        → k < n
        → ((j : ℕ) → j < k → f.stat (place (i + j)) ≡ there)
        → f.stat (place (i + k)) ≡ missing
        → IsArchived i n (record {
          renamed = some (path, place (i + k));
          result = ok (archive_name f id (i + k));
        })

  one_more :
      (i : ℕ) (P : ℕ → Type 0)
      → P i
      → (n : ℕ) → ((k : ℕ) → k < n → P (suc i + k))
      → (k : ℕ) → k < suc n
      → P (i + k)
  one_more i P p n h zero l = subst P (omega arith) p
  one_more i P p n h (suc k) l = subst P (omega arith) (h k (omega (arith, l)))

  further :
      (i n : ℕ) (x : Archived)
      → f.stat (place i) ≡ there
      → IsArchived (suc i) n x
      → IsArchived i (suc n) x
  further i n x t (nothing_moved e ne) = nothing_moved e ne
  further i n x t (all_taken h) = all_taken (one_more i (λ m. f.stat (place m) ≡ there) t n h)
  further i n x t (moved k l h m) =
      let e : i + suc k ≡ suc i + k = omega arith in
      subst
        (λ z.
          IsArchived i (suc n)
            (record { renamed = some (path, place z); result = ok (archive_name f id z) }))
        e
        (moved (suc k) (omega (arith, l)) (one_more i (λ z. f.stat (place z) ≡ there) t k h)
          (subst (λ z. f.stat (place z) ≡ missing) (sym e) m))

  free_now :
      (i n : ℕ)
      → f.stat (place i) ≡ missing
      → IsArchived i (suc n) (move_to f path (archive_name f id i))
  unfolding move_to
  free_now i n e =
      let z : i + 0 ≡ i = omega arith in
      if_both (IsArchived i (suc n)) (not f.mkdir_ok) _ _
        (λ _. nothing_moved no_dir (λ q. ground (arith, q)))
        (λ _.
          if_both (IsArchived i (suc n)) (not f.rename_ok) _ _
            (λ _. nothing_moved no_rename (λ q. ground (arith, q)))
            (λ _.
              subst
                (λ x.
                  IsArchived i (suc n)
                    (record { renamed = some (path, place x); result = ok (archive_name f id x) }))
                z
                (moved 0 (omega arith) (λ j l. ground (arith, l))
                  (subst (λ x. f.stat (place x) ≡ missing) (sym z) e))))

  loop-IsArchived : (n i : ℕ) → IsArchived i n (archive_loop f path id n i)
  unfolding archive_loop
  loop-IsArchived zero i = all_taken (λ k l. ground (arith, l))
  loop-IsArchived (suc n) i = go (loop-IsArchived n (suc i)) (f.stat (place i)) refl
    where
      go :
          IsArchived (suc i) n (archive_loop f path id n (suc i))
          → (s : Stat) → f.stat (place i) ≡ s
          → IsArchived i (suc n) (elim s [
            | there ↦ archive_loop f path id n (suc i)
            | stat_failed ↦ not_archived no_stat
            | missing ↦ move_to f path (archive_name f id i)
          ])
      go h there e = further i n (archive_loop f path id n (suc i)) e h
      go h stat_failed e = nothing_moved no_stat (λ q. ground (arith, q))
      go h missing e = free_now i n e

  -- Where there is a history, archiveCurrentHistory renames it to the first of the 1000 names that is
  -- free, and returns that name; or it fails and renames nothing, with "exhausted" only when all names
  -- are taken. Where there is none, it returns the empty name and renames nothing.
  pub archive_current_history-IsArchived :
      ((f.stat path ≡ missing)
        × (archive_current_history f path id ≡ record { renamed = none; result = ok "" }))
      ⊎ ((f.stat path ≢ missing) × IsArchived 0 1000 (archive_current_history f path id))
  unfolding archive_current_history
  archive_current_history-IsArchived = go (f.stat path) refl
    where
      go :
          (s : Stat)
          → f.stat path ≡ s
          → ((f.stat path ≡ missing)
              × (elim s [
                | missing ↦ record { renamed = none; result = ok "" }
                | stat_failed ↦ not_archived no_stat
                | there ↦ archive_loop f path id 1000 0
              ]
                  ≡ record { renamed = none; result = ok "" }))
            ⊎ ((f.stat path ≢ missing)
                × IsArchived 0 1000 (elim s [
                  | missing ↦ record { renamed = none; result = ok "" }
                  | stat_failed ↦ not_archived no_stat
                  | there ↦ archive_loop f path id 1000 0
                ]))
      go missing e = inl (e, refl)
      go stat_failed e =
          inr (λ m. ground (arith, sym e ∙ m), nothing_moved no_stat (λ q. ground (arith, q)))
      go there e = inr (λ m. ground (arith, sym e ∙ m), loop-IsArchived 1000 0)
