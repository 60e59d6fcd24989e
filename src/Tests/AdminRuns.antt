-- ===== src/Tests/AdminRuns.antt =====
-- Building an image, at a concrete state.
use spwn.Db.Hosts.{list_hosts}
use spwn.Base.Text.{show}
use spwn.Db.Images.{create_image}
use spwn.Base.{String, [], any, find, none, refl, ◌∷◌, ◌≡◌}
use spwn.Base.Int.{pos}
use spwn.Db.Rows.{HostRow, ImageRow, stopped, building}
use spwn.World.{
  World, after, attempt, constrained, gets, ignore, new_v4, ok, on_option, on_result, query, result,
  ◌>>=◌,
}
use spwn.Auth.Http.{json, with_body}
use spwn.ControlPlane.Admin.{
  BuildAnswer, streamed, progress, finished, build_image, built_image_json,
}
use spwn.ControlPlane.Admin.Builds.{SomeBuilt, build_image_settles}
use spwn.Tests.Sample.{vm_row, db_with, world_with}

abbrev admin_world : World
admin_world = world_with (db_with (vm_row "vm1" stopped ∷ []))

abbrev builds : HostRow → String → String → String → String → BuildAnswer
builds host id source name tag = streamed (progress ∷ finished (pos 512) ∷ [])

abbrev recorded : ImageRow
recorded = record {
  id = admin_world.ids admin_world.next_id;
  name = "debian";
  tag = "latest";
  source = "docker.io/debian";
  status = building;
  size_bytes = pos 0;
  error = none;
  created_at = admin_world.now;
}

is_accepted :
    result (build_image builds "docker.io/debian" "debian" none) admin_world
    ≡ ok (with_body 202 (json (built_image_json recorded)))
unfolding any attempt build_image constrained create_image find gets ignore list_hosts new_v4
    on_option on_result query show ◌>>=◌
is_accepted = refl

build_image_settles_example :
    SomeBuilt admin_world.ids "debian" "latest" "docker.io/debian"
      (with_body 202 (json (built_image_json recorded)))
      (after (build_image builds "docker.io/debian" "debian" none) admin_world).db
build_image_settles_example =
    build_image_settles builds "docker.io/debian" "debian" none admin_world
      (with_body 202 (json (built_image_json recorded))) refl refl is_accepted refl
