-- ===== src/Web/Tests/Pools.antt =====
-- Calls of Code_Memche.go that interleave with a replacement of the pool, at concrete inputs.
use koko.Base.{arith, All, Option, ℕ, List, ◌≡◌, refl, [], ◌∷◌, none, some, map, ◌+◌}
use koko.Go.Text.{bytes}
use koko.Web.World.{Command, set, get}
use koko.Web.Model.Pools.{Stage, State, interleave}
use koko.Web.Model.Pools.Accounts.{borrowed, sum, count, IsMade}
use koko.Web.Model.Pools.Interleaved.{started, all_held, HasReturned, interleave-account}
use koko.Web.Tests.Fixtures.{services}

-- One pool, with no connection out.
abbrev ready : State
ready = record { pools = 0 ∷ []; pool = some 0; redis_passwd = []; calls = [] }

-- A code is checked and another saved, and the pool is replaced in the middle of both.
abbrev both : List (Option Command)
both = some (get (bytes "lisi")) ∷ some (set (bytes "wangwu") (bytes "000042") 120) ∷ none ∷ []

abbrev schedule : List ℕ
schedule = 0 ∷ 0 ∷ 1 ∷ 2 ∷ 1 ∷ 0 ∷ 0 ∷ 1 ∷ 1 ∷ 0 ∷ 1 ∷ 0 ∷ 1 ∷ []

abbrev result : List Stage × State
result = interleave services schedule (map started both) ready

-- Each pool, the old one too, misses connections.
both_miss : result.1.pools ≡ 1 ∷ 3 ∷ []
unfolding interleave
both_miss = refl

interleave-account_example :
    IsMade result.1
    × ((j : ℕ) → borrowed j result.1.pools ≡ borrowed j (0 ∷ []) + count j (all_held result.0))
    × (All HasReturned result.0 → sum result.1.pools ≡ 4)
interleave-account_example = interleave-account services schedule both ready (omega arith)
