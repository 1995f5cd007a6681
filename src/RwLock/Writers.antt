-- ===== src/RwLock/Writers.antt =====
-- `WriteLock` and `WriteUnlock` of RWLock.cpp, as steps on the lock word.
use rio_iocp_server.Prelude.{
  same_id, other_id, ℕ, suc, ◌+◌, ◌-◌, ◌*◌, ◌/◌, ◌%◌, ◌<◌, ◌≡◌, ◌≢◌, inl, inr, refl, sym, ap, ◌∙◌,
  Bool, true, ◌==◌, arith, if_lem,
}
use rio_iocp_server.RwLock.{RwLock, write_again, try_write, write_unlock, writer_of}
use rio_iocp_server.RwLock.Held.{Held, Sound, count, at}

at_lem :
    (P : ℕ → Type 0) (t n : ℕ) (depth : ℕ → ℕ) (u : ℕ)
    → (u ≡ t → P n)
    → (u ≢ t → P (depth u))
    → P (at t n depth u)
at_lem P t n depth u p q =
    if_lem P (u == t) n (depth u) (λ e. p (same_id u t e)) (λ e. q (other_id u t e))

at_keeps : (t n : ℕ) (depth : ℕ → ℕ) (u : ℕ) → n ≡ depth t → at t n depth u ≡ depth u
at_keeps t n depth u e =
    at_lem (λ m. m ≡ depth u) t n depth u (λ same. e ∙ ap depth (sym same)) (λ differ. refl)

-- A thread got nothing.
still : (t : ℕ) (h : Held) → Sound h → Sound (record h { depth = at t (h.depth t + 0) h.depth })
unfolding Sound
still t h (inl f) = inl (record {
  flag = f.flag;
  few = f.few;
  none = f.none;
  nobody = λ u. at_keeps t (h.depth t + 0) h.depth u (omega arith) ∙ f.nobody u;
})
still t h (inr (w, o)) = inr (
  w,
  record {
    some = o.some;
    small = o.small;
    flag = o.flag;
    no_reader = o.no_reader;
    counted = o.counted;
    mine = at_keeps t (h.depth t + 0) h.depth w (omega arith) ∙ o.mine;
    others = λ u differ. at_keeps t (h.depth t + 0) h.depth u (omega arith) ∙ o.others u differ;
  },
)

-- The thread that writes, or is to write, holds the lock once more.
owns :
    (t : ℕ) (h : Held) (l : RwLock)
    → 0 < t
    → t < 65536
    → l.lock_flag ≡ t * 65536
    → h.readers ≡ 0
    → l.write_cnt ≡ h.depth t + 1
    → ((u : ℕ) → u ≢ t → h.depth u ≡ 0)
    → Sound (record h { lock = l; depth = at t (h.depth t + 1) h.depth })
unfolding Sound
owns t h l some small flag no_reader once_more others = inr (
  t,
  record {
    some = some;
    small = small;
    flag = flag;
    no_reader = no_reader;
    counted = omega (arith, once_more);
    mine =
        at_lem (λ m. m ≡ l.write_cnt) t (h.depth t + 1) h.depth t (λ same. sym once_more)
          (λ differ. absurd (differ refl));
    others = λ u differ.
        at_lem (λ m. m ≡ 0) t (h.depth t + 1) h.depth u (λ same. absurd (differ same)) (others u);
  },
)

pub writes_again_lem :
    (t : ℕ) (h : Held)
    → Sound h
    → 0 < t
    → t < 65536
    → Sound (record h {
      lock = (write_again t h.lock).1;
      depth = at t (h.depth t + count (write_again t h.lock).0) h.depth;
    })
unfolding write_again Sound
writes_again_lem t h sound some small =
    if_lem
      (λ (r : Bool × RwLock).
        Sound (record h { lock = r.1; depth = at t (h.depth t + count r.0) h.depth }))
      (t == writer_of h.lock.lock_flag) _ _ (λ same. again sound (same_id _ _ same))
      (λ differ. still t h sound)
  where
    again :
        Sound h
        → t ≡ h.lock.lock_flag / 65536
        → Sound (record h {
          lock = record (h.lock) { write_cnt = h.lock.write_cnt + 1 };
          depth = at t (h.depth t + 1) h.depth;
        })
    again (inl f) same = absurd (omega (arith, f.flag, f.few, same))
    again (inr (w, o)) same =
        let mine : t ≡ w = omega (arith, o.flag, same) in
        owns t h (record (h.lock) { write_cnt = h.lock.write_cnt + 1 }) some small
          (omega (arith, o.flag, mine)) o.no_reader (omega (arith, ap h.depth mine, o.mine))
          (λ u differ. o.others u (λ e. differ (e ∙ sym mine)))

pub writes_lem :
    (t : ℕ) (h : Held)
    → Sound h
    → 0 < t
    → t < 65536
    → Sound (record h {
      lock = (try_write t h.lock).1;
      depth = at t (h.depth t + count (try_write t h.lock).0) h.depth;
    })
unfolding try_write Sound
writes_lem t h sound some small =
    if_lem
      (λ (r : Bool × RwLock).
        Sound (record h { lock = r.1; depth = at t (h.depth t + count r.0) h.depth }))
      (h.lock.lock_flag == 0) _ _ (λ empty. first sound (same_id _ _ empty))
      (λ differ. still t h sound)
  where
    first :
        Sound h
        → h.lock.lock_flag ≡ 0
        → Sound (record h {
          lock = record (h.lock) {
            lock_flag = t % 65536 * 65536;
            write_cnt = h.lock.write_cnt + 1;
          };
          depth = at t (h.depth t + 1) h.depth;
        })
    first (inl f) empty =
        owns t h _ some small (omega (arith, small)) (omega (arith, f.flag, empty))
          (omega (arith, f.none, f.nobody t)) (λ u differ. f.nobody u)
    first (inr (w, o)) empty = absurd (omega (arith, o.flag, o.some, empty))

pub stops_writing_lem :
    (t k : ℕ) (h : Held)
    → Sound h
    → h.depth t ≡ suc k
    → Sound (record h { lock = write_unlock t h.lock; depth = at t k h.depth })
unfolding write_unlock Sound
stops_writing_lem t k h (inl f) held = absurd (omega (arith, f.nobody t, held))
stops_writing_lem t k h (inr (w, o)) held =
    if_lem (λ l. Sound (record h { lock = l; depth = at t k h.depth }))
      (writer_of h.lock.lock_flag == t) _ _
      (λ owner.
        if_lem (λ l. Sound (record h { lock = l; depth = at t k h.depth }))
          (h.lock.write_cnt - 1 == 0) _ _
          (λ last. inl (record {
            flag = sym o.no_reader;
            few = omega (arith, o.no_reader);
            none = same_id _ _ last;
            nobody = λ u.
                at_lem (λ m. m ≡ 0) t k h.depth u
                  (λ same. omega (arith, held, same_id _ _ last, ap h.depth (mine owner), o.mine))
                  (λ differ. o.others u (λ e. differ (e ∙ sym (mine owner))));
          }))
          (λ more. inr (
            w,
            record {
              some = o.some;
              small = o.small;
              flag = o.flag;
              no_reader = o.no_reader;
              counted = ground (arith, other_id _ _ more);
              mine =
                  at_lem (λ m. m ≡ h.lock.write_cnt - 1) t k h.depth w
                    (λ same. omega (arith, held, ap h.depth (mine owner), o.mine))
                    (λ differ. absurd (differ (sym (mine owner))));
              others = λ u differ.
                  at_lem (λ m. m ≡ 0) t k h.depth u (λ same. absurd (differ (same ∙ mine owner)))
                    (λ e. o.others u differ);
            },
          )))
      (λ stranger.
        absurd
          (omega (arith, held, o.others t (λ e. other_id _ _ stranger (omega (arith, o.flag, e))))))
  where
    mine : (writer_of h.lock.lock_flag == t) ≡ true → t ≡ w
    mine owner = omega (arith, o.flag, same_id _ _ owner)
