-- ===== src/RwLock/Exclusion.antt =====
-- RWLock.cpp, used by any number of threads: who may hold the lock together.
use rio_iocp_server.Prelude.{
  same_id, other_id, ℕ, ◌<◌, ◌≡◌, inl, inr, refl, sym, ap, ◌∙◌, Bool, true, ◌==◌, arith, if_lem,
}
use rio_iocp_server.RwLock.{make_lock}
use rio_iocp_server.RwLock.Held.{
  Held, Locks, Owned, Sound, unused, reads, stops_reading, writes_again, writes, stops_writing,
}
use rio_iocp_server.RwLock.Readers.{reads_lem, stops_reading_lem}
use rio_iocp_server.RwLock.Writers.{writes_again_lem, writes_lem, stops_writing_lem}

Locks-Sound : (h : Held) → Locks h → Sound h
unfolding make_lock Sound
Locks-Sound _ unused =
    inl (record { flag = refl; few = omega arith; none = refl; nobody = λ t. refl })
Locks-Sound _ (reads loaded {h} before few) = reads_lem loaded h (Locks-Sound h before) few
Locks-Sound _ (stops_reading k {h} before held) = stops_reading_lem k h (Locks-Sound h before) held
Locks-Sound _ (writes_again t {h} before some small) =
    writes_again_lem t h (Locks-Sound h before) some small
Locks-Sound _ (writes t {h} before some small) = writes_lem t h (Locks-Sound h before) some small
Locks-Sound _ (stops_writing t k {h} before held) =
    stops_writing_lem t k h (Locks-Sound h before) held

-- In every state that threads with ids from 1 to 65535 reach from a new lock, when fewer than 65535
-- hold it to read and each unlocks only what it holds: a thread that holds the write lock is the only
-- one that does, no thread holds the lock to read, and `m_writeCnt` is how often that thread has
-- locked it.
pub excludes_lem :
    (h : Held) (t u : ℕ)
    → Locks h
    → 0 < h.depth t
    → (h.readers ≡ 0) × (h.lock.write_cnt ≡ h.depth t) × (0 < h.depth u → u ≡ t)
unfolding Sound
excludes_lem h t u reached holds = go (Locks-Sound h reached)
  where
    owner : (w : ℕ) → Owned h w → (v : ℕ) → 0 < h.depth v → v ≡ w
    owner w o v some =
        if_lem (λ (b : Bool). v ≡ w) (v == w) true true (λ e. same_id v w e)
          (λ e. absurd (omega (arith, some, o.others v (other_id v w e))))

    go : Sound h → (h.readers ≡ 0) × (h.lock.write_cnt ≡ h.depth t) × (0 < h.depth u → u ≡ t)
    go (inl f) = absurd (omega (arith, holds, f.nobody t))
    go (inr (w, o)) = (
      o.no_reader,
      sym (ap h.depth (owner w o t holds) ∙ o.mine),
      λ some. owner w o u some ∙ sym (owner w o t holds),
    )
