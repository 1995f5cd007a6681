-- ===== src/ObjectPool/Tests.antt =====
-- An ObjectPool (ServerCore/Memory/ObjectPool.h) that gives two objects, takes one back and gives it
-- again.
use rio_iocp_server.Prelude.{refl, [], ◌∷◌, some, none, has, erase}
use rio_iocp_server.ObjectPool.{ObjectPool, make_pool, push, pop, pop_entry}
use rio_iocp_server.ObjectPool.Uses.{Uses, Owned, made, pops, fails, pushes, Uses-Owned}

abbrev used : ObjectPool
used = (pop none (pop (some 64) (push 32 (pop (some 48) (pop (some 32) make_pool).1).1)).1).1

used-Uses : Uses (32 ∷ erase 32 (48 ∷ 32 ∷ [])) 1 used
unfolding pop pop_entry push has erase
used-Uses =
    fails
      (pops 64 32 (pushes 32 (pops 48 48 (pops 32 32 made refl refl refl) refl refl refl) refl) refl
        refl refl)
      refl

Uses-Owned_example : Owned (32 ∷ erase 32 (48 ∷ 32 ∷ [])) 1 used
Uses-Owned_example = Uses-Owned (32 ∷ erase 32 (48 ∷ 32 ∷ [])) 1 used used-Uses
