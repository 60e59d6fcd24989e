-- ===== src/Db/Images.antt =====
-- crates/db/src/lib.rs: the statements on `images`.
use spwn.Base.{
  String, ◌==◌, Bool, not, ◌&&◌, ◌||◌, Option, none, some, List, [], ◌∷◌, ◌++◌, select, find, any,
  update_where, if◌then◌else◌,
}
use spwn.Base.Int.{ℤ, pos, negate_ℤ}
use spwn.Base.Sort.{sort_by_key}
use spwn.Db.Rows.{Db, ImageRow, building, ready, failed_build}
use spwn.World.{
  unique_violation, Exec, Done, message, ok_or, ◌>>=◌, ◌>>◌, gets, query, update, constrained,
}

abbrev pub is_image : String → ImageRow → Bool
is_image id i = i.id == id

abbrev pub has_name_tag : String → String → ImageRow → Bool
has_name_tag name tag i = (i.name == name) && (i.tag == tag)

unfoldable pub get_image : String → Exec (Option ImageRow)
get_image id = query (λ d. find (is_image id) d.images)

-- The last line unwraps what the second statement finds: a panic is a failure here.
unfoldable pub create_image : String → String → String → String → Exec ImageRow
unfolding get_image
create_image id name tag source = do
  now ← gets (λ w. w.now)
  constrained
      (λ d.
        if any (λ i. is_image id i || has_name_tag name tag i) d.images
        then some unique_violation
        else none)
      (λ d. record d {
        images =
            d.images
            ++ record {
              id = id;
              name = name;
              tag = tag;
              source = source;
              status = building;
              size_bytes = pos 0;
              error = none;
              created_at = now;
            }
              ∷ [];
      })
  image ← get_image id
  ok_or image (message "image just inserted")

unfoldable pub get_image_by_name_tag : String → String → Exec (Option ImageRow)
get_image_by_name_tag name tag = query (λ d. find (has_name_tag name tag) d.images)

unfoldable pub list_images : Exec (List ImageRow)
list_images = query (λ d. sort_by_key (λ i. negate_ℤ (ImageRow.created_at i)) d.images)

unfoldable pub update_images : String → (ImageRow → ImageRow) → Db → Db
update_images id f d = record d { images = update_where (is_image id) f d.images }

unfoldable pub update_image_ready : String → ℤ → Exec Done
unfolding update_images
update_image_ready id size_bytes =
    update
      (update_images id (λ i. record i { status = ready; size_bytes = size_bytes; error = none }))

unfoldable pub update_image_error : String → String → Exec Done
unfolding update_images
update_image_error id error =
    update (update_images id (λ i. record i { status = failed_build; error = some error }))

unfoldable pub delete_image : String → Exec Done
delete_image id = update (λ d. record d { images = select (λ i. not (is_image id i)) d.images })
