-- ===== src/RioCore/Relock.antt =====
-- `DeferredSend` of RioCore.cpp, which holds the lock of the sessions while they send.
use rio_iocp_server.Prelude.{
  ℕ, Bool, true, false, List, [], inl, inr, ◌∷◌, ◌≡◌, refl, sym, ap, ap₂, ◌∙◌, if◌then◌else◌,
  if_true, if_false, bind_ok, bind_ub, arith, Outcome, ok, ub, ◌>>=◌, has, Bool-cases, at, at_other,
  Distinct, absent,
}
use rio_iocp_server.RioSession.Defs.{RioSession, World}
use rio_iocp_server.RioSession.Send.{send_deferred}
use rio_iocp_server.RioCore.{
  RioCore, unlock_sessions, release_session, releases, returned, defer_loop, deferred_send,
}

-- The objects when every session of the list is as `sent` says.
unfoldable pub all_sent : (ℕ → Bool × RioSession) → List ℕ → (ℕ → RioSession) → ℕ → RioSession
all_sent sent [] objects = objects
all_sent sent (h ∷ hs) objects = all_sent sent hs (at h (sent h).1 objects)

-- Whether a session of the list calls `ReleaseSession` while it sends.
unfoldable pub any_releases : (ℕ → Bool × RioSession) → List ℕ → (ℕ → RioSession) → Bool
any_releases sent [] objects = false
any_releases sent (h ∷ hs) objects =
    let rest = any_releases sent hs objects in
    if releases (objects h).log (sent h).1.log then true else rest

-- `ReleaseSession` of a thread that holds the lock.
relocks : (h : ℕ) (c : RioCore) → c.session_lock ≡ true → release_session h c ≡ ub
unfolding release_session
relocks h c locked = bind_ub _ (if_true c.session_lock ub _ locked)

module _ (worlds : ℕ → World) (fuel : ℕ) (sent : ℕ → Bool × RioSession) where
  unfoldable pub Sends : List ℕ → (ℕ → RioSession) → Type 0
  Sends hs objects =
      (h : ℕ) → has h hs ≡ true → send_deferred (worlds h) fuel (objects h) ≡ ok (sent h)

  any_releases-other :
      (h : ℕ) (s : RioSession) (hs : List ℕ) (objects : ℕ → RioSession)
      → has h hs ≡ false
      → any_releases sent hs (at h s objects) ≡ any_releases sent hs objects
  unfolding any_releases has
  any_releases-other h s [] objects out = refl
  any_releases-other h s (t ∷ hs) objects out =
      ap₂ (λ (u : RioSession) (b : Bool). if releases u.log (sent t).1.log then true else b)
        (at_other h s objects t (λ e. ground (arith, e, out)))
        (any_releases-other h s hs objects (ground (arith, out)))

  defer_loop_lem :
      (hs : List ℕ) (c : RioCore)
      → c.session_lock ≡ true
      → Distinct hs
      → Sends hs c.objects
      → defer_loop worlds fuel hs c ≡ (
          if any_releases sent hs c.objects
          then ub
          else ok (record c { objects = all_sent sent hs c.objects }))
  unfolding defer_loop Distinct Sends all_sent any_releases has returned release_session
  defer_loop_lem [] c locked d s = refl
  defer_loop_lem (h ∷ hs) c locked (d, ds) s =
      bind_ok (sent h) _ (s h (ground arith))
      ∙ elim (Bool-cases (releases (c.objects h).log (sent h).1.log)) [
        | inl once ↦
            bind_ub (defer_loop worlds fuel hs) (
              if_true _ _ _ once
              ∙ relocks h (record c { objects = at h (sent h).1 c.objects }) locked)
            ∙ sym (if_true _ ub _ (if_true _ true _ once))
        | inr still ↦
            ap (λ o. o >>= defer_loop worlds fuel hs) (if_false _ _ _ still)
            ∙ defer_loop_lem hs (record c { objects = at h (sent h).1 c.objects }) locked ds
                (λ t m.
                  ap (send_deferred (worlds t) fuel)
                    (at_other h (sent h).1 c.objects t (absent t h hs d m))
                  ∙ s t (ground (arith, m)))
            ∙ ap
                (λ b.
                  if b
                  then ub
                  else ok (record c { objects = all_sent sent hs (at h (sent h).1 c.objects) }))
                (any_releases-other h (sent h).1 hs c.objects d ∙ sym (if_false _ true _ still))
      ]

  -- When nobody holds the lock, no session is twice in the set, and `SendDeferred` of each session of
  -- the set returns: `DeferredSend` runs into undefined behaviour when one of the sessions calls
  -- `ReleaseSession` meanwhile, which locks the same mutex again; otherwise it returns, each session of
  -- the set is as its `SendDeferred` left it, and nothing else has changed, the lock included.
  pub deferred_send_lem :
      (c : RioCore)
      → c.session_lock ≡ false
      → Distinct c.sessions
      → Sends c.sessions c.objects
      → deferred_send worlds fuel c ≡ (
          if any_releases sent c.sessions c.objects
          then ub
          else ok (record c { objects = all_sent sent c.sessions c.objects }))
  unfolding deferred_send
  deferred_send_lem c free d s =
      bind_ok l _ (if_false c.session_lock ub (ok l) free)
      ∙ ap unlocked (defer_loop_lem c.sessions l refl d s)
      ∙ by_releases (any_releases sent c.sessions c.objects)
    where
      l : RioCore
      l = record c { session_lock = true }

      unlocked : Outcome RioCore → Outcome RioCore
      unlocked o = o >>= λ e. ok (unlock_sessions e)

      done : RioCore
      done = record c { objects = all_sent sent c.sessions c.objects }

      by_releases :
          (b : Bool)
          → unlocked
              (if b then ub else ok (record l { objects = all_sent sent c.sessions c.objects }))
            ≡ (if b then ub else ok done)
      by_releases true = refl
      by_releases false = ap (λ (k : Bool). ok (record done { session_lock = k })) (sym free)
