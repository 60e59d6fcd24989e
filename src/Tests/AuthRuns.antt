-- ===== src/Tests/AuthRuns.antt =====
-- Tokens and sessions at concrete states.
use spwn.Base.{[], find, refl, some, ◌∷◌, ◌≡◌, ◌≢◌}
use spwn.Base.Int.{pos, ◌<ℤ◌}
use spwn.Db.Rows.{VmAuthToken, stopped}
use spwn.Db.Tokens.{consume_vm_auth_token}
use spwn.Db.Tokens.SingleUse.{consume_vm_auth_token_once}
use spwn.World.{World, after, gets, ok, result, transact, ◌>>=◌}
use spwn.Tests.Sample.{vm_row, db_with, world_with}

abbrev token : VmAuthToken
token = record { id = "token1"; account_id = "alice"; vm_id = "vm1"; expires_at = pos 1300 }

abbrev token_world : World
token_world =
    world_with (record (db_with (vm_row "vm1" stopped ∷ [])) { vm_auth_tokens = token ∷ [] })

consumed : result (consume_vm_auth_token "token1") token_world ≡ ok (some token)
unfolding consume_vm_auth_token find gets transact ◌>>=◌
consumed = refl

consume_vm_auth_token_once_example :
    (token.id ≡ "token1")
    × (token_world.now <ℤ token.expires_at)
    × (result (consume_vm_auth_token "token1") (after (consume_vm_auth_token "token1") token_world)
        ≢ ok (some token))
consume_vm_auth_token_once_example =
    consume_vm_auth_token_once "token1" token_world token token consumed
