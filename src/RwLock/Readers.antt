-- ===== src/RwLock/Readers.antt =====
-- `ReadLock` and `ReadUnlock` of RWLock.cpp, as steps on the lock word.
use rio_iocp_server.Prelude.{ℕ, suc, ◌+◌, ◌%◌, ◌<◌, ◌≡◌, inl, inr, Bool, ◌==◌, arith, if_lem}
use rio_iocp_server.RwLock.{RwLock, try_read, read_unlock, readers_of}
use rio_iocp_server.RwLock.Held.{Held, Sound, count}

pub reads_lem :
    (loaded : ℕ) (h : Held)
    → Sound h
    → h.readers < 65535
    → Sound (record h {
      lock = (try_read loaded h.lock).1;
      readers = h.readers + count (try_read loaded h.lock).0;
    })
unfolding Sound try_read
reads_lem loaded h (inl f) few =
    if_lem (λ (r : Bool × RwLock). Sound (record h { lock = r.1; readers = h.readers + count r.0 }))
      (h.lock.lock_flag == readers_of loaded) _ _
      (λ same. inl (record {
        flag = ground (arith, f.flag, same);
        few = omega (arith, few);
        none = f.none;
        nobody = f.nobody;
      }))
      (λ differ. inl (record {
        flag = omega (arith, f.flag);
        few = omega (arith, few);
        none = f.none;
        nobody = f.nobody;
      }))
reads_lem loaded h (inr (w, o)) few =
    if_lem (λ (r : Bool × RwLock). Sound (record h { lock = r.1; readers = h.readers + count r.0 }))
      (h.lock.lock_flag == readers_of loaded) _ _
      (λ same. absurd (ground (arith, o.flag, o.some, same)))
      (λ differ. inr (
        w,
        record {
          some = o.some;
          small = o.small;
          flag = o.flag;
          no_reader = omega (arith, o.no_reader);
          counted = o.counted;
          mine = o.mine;
          others = o.others;
        },
      ))

pub stops_reading_lem :
    (k : ℕ) (h : Held)
    → Sound h
    → h.readers ≡ suc k
    → Sound (record h { lock = (read_unlock h.lock).1; readers = k })
unfolding Sound read_unlock
stops_reading_lem k h (inl f) held =
    if_lem (λ (r : Bool × RwLock). Sound (record h { lock = r.1; readers = k }))
      (readers_of h.lock.lock_flag == 0) _ _ (λ h. below) (λ h. below)
  where
    below : Sound (record h {
      lock = record (h.lock) { lock_flag = (h.lock.lock_flag + 4294967295) % 4294967296 };
      readers = k;
    })
    below = inl (record {
      flag = omega (arith, f.flag, f.few, held);
      few = omega (arith, f.few, held);
      none = f.none;
      nobody = f.nobody;
    })
stops_reading_lem k h (inr (w, o)) held = absurd (omega (arith, o.no_reader, held))
