-- ===== src/ControlPlane/Admin/Builds.antt =====
-- crates/control-plane/src/admin.rs: an image that is built does not stay `building`.
use spwn.Base.{
  ℕ, String, ◌==◌, ◌≡◌, refl, sym, ap, ◌∙◌, subst, inl, inr, Bool, true, false, ◌||◌, Option, none,
  some, List, [], ◌∷◌, find, find-snoc, any, update_where, eq_refl, arith, Bool-cases,
  if◌then◌else◌,
}
use spwn.Base.Int.{ℤ}
use spwn.Db.Rows.{Db, HostRow, ImageRow}
use spwn.Db.Hosts.{list_hosts}
use spwn.Db.Images.{
  is_image, has_name_tag, get_image, create_image, update_images, update_image_ready,
  update_image_error,
}
use spwn.World.{
  World, DbError, Failure, Result, ok, err, Exec, Done, result, after, pure, ignore, ok_or,
  on_result,
}
use spwn.World.Runs.{
  Setting, Next, Runs, Runs-bind, Runs-pure, Runs-now, Runs-new_v4, Runs-attempt, Runs-ignore,
  Runs-query, Runs-update, Runs-constrained, Runs-on_option, Runs-weaken, runs_quiet,
}
use spwn.Auth.Http.{Response, with_body, json}
use spwn.Api.Responses.{told}
use spwn.ControlPlane.Admin.{
  BuildMessage, progress, finished, failing, broken, BuildAnswer, no_channel, refused_call,
  streamed, follow, run_build, build_image, is_building, or_told, or_latest, built_image_json,
}

pub record Settled (id : String) (d : Db) : Type 0 where
  pub image : ImageRow
  pub stored : find (is_image id) d.images ≡ some image
  pub over : is_building image.status ≡ false

find_updated :
    (id : String) (f : ImageRow → ImageRow)
    → ((i : ImageRow) → ImageRow.id (f i) ≡ i.id)
    → (is : List ImageRow) (i : ImageRow) → find (is_image id) is ≡ some i
    → find (is_image id) (update_where (is_image id) f is) ≡ some (f i)
unfolding find update_where
find_updated id f same [] i h = cc
find_updated id f same (x ∷ xs) i h = elim (Bool-cases (is_image id x)) [
  | inl e ↦
      let hit : is_image id (f x) ≡ true = ap (λ t. t == id) (same x) ∙ e in
      rw (e, hit) (ap (λ u. some (f u)) (first x i (rw e at h)))
  | inr e ↦ rw (e, e) (find_updated id f same xs i (rw e at h))
]
  where
    first : (x i : ImageRow) → Path (Option ImageRow) (some x) (some i) → x ≡ i
    first x i e = cc

module _ (c : Setting) (quiet : c.quiet ≡ true) (id : String) where
  never_loud : c.quiet ≡ false → ⊥
  never_loud q = cc

  Recorded : Db → Type 0
  Recorded d = (i : ImageRow) × (find (is_image id) d.images ≡ some i)

  ready-Settled :
      (d : Db) (size : ℤ)
      → Recorded d
      → Runs c d (ignore (update_image_ready id size)) (λ r d'. Settled id d')
  unfolding update_image_ready update_images Recorded
  ready-Settled d size (i, e) = Runs-ignore c d _ _ (
      Runs-update c d _ _
        (record { image = _; stored = find_updated id _ (λ j. refl) d.images i e; over = refl })
        (λ x q. absurd (never_loud q)))

  error-Settled :
      (d : Db) (text : String)
      → Recorded d
      → Runs c d (ignore (update_image_error id text)) (λ r d'. Settled id d')
  unfolding update_image_error update_images Recorded
  error-Settled d text (i, e) = Runs-ignore c d _ _ (
      Runs-update c d _ _
        (record { image = _; stored = find_updated id _ (λ j. refl) d.images i e; over = refl })
        (λ x q. absurd (never_loud q)))

  follow-Settled :
      (d : Db) (ms : List BuildMessage)
      → Recorded d
      → Runs c d (follow id ms) (λ r d'. Settled id d')
  unfolding follow
  follow-Settled d [] h = error-Settled d _ h
  follow-Settled d (progress ∷ ms) h = follow-Settled d ms h
  follow-Settled d (finished size ∷ ms) h = ready-Settled d size h
  follow-Settled d (failing m ∷ ms) h = error-Settled d m h
  follow-Settled d (broken m ∷ ms) h = error-Settled d m h

  run_build-Settled :
      (d : Db) (answer : BuildAnswer)
      → Recorded d
      → Runs c d (run_build id answer) (λ r d'. Settled id d')
  unfolding run_build
  run_build-Settled d (no_channel e) h = error-Settled d e h
  run_build-Settled d (refused_call e) h = error-Settled d e h
  run_build-Settled d (streamed ms) h = follow-Settled d ms h

-- What a response with the status 202 promises.
abbrev Accepted : (Response → Db → Type 0) → Result Response → Db → Type 0
Accepted P (ok resp) d = resp.status ≡ 202 → P resp d
Accepted P (err e) d = Unit

-- The image of a build: recorded under the id drawn for it, with the name, tag and source asked for.
pub record Asked (id name tag source : String) (image : ImageRow) : Type 0 where
  pub same_id : image.id ≡ id
  pub same_name : image.name ≡ name
  pub same_tag : image.tag ≡ tag
  pub same_source : image.source ≡ source

-- The response shows the image of the build, and the row with this image's id has settled.
abbrev pub BuildSettled : (id name tag source : String) → Response → Db → Type 0
BuildSettled id name tag source resp d =
    (image : ImageRow) × Asked id name tag source image
    × (resp ≡ with_body 202 (json (built_image_json image)))
    × Settled image.id d

abbrev Then :
    {A : Type 0} → (Response → Db → Type 0) → Setting → (A → Exec Response) → Result A → Db → Type 0
Then P c f (ok a) d = Runs c d (f a) (Accepted P)
Then P c f (err e) d = Unit

any_left :
    {A : Type 0} (p q : A → Bool) (xs : List A)
    → any (λ x. p x || q x) xs ≡ false
    → any p xs ≡ false
unfolding any
any_left p q [] h = refl
any_left p q (x ∷ xs) h = ground (arith, any_left p q xs)

none_taken : (b : Bool) (x : DbError) → (if b then some x else none) ≡ none → b ≡ false
none_taken true x e = cc
none_taken false x e = refl

module _ (P : Response → Db → Type 0) (c : Setting) (quiet : c.quiet ≡ true) where
  told_failed :
      {A : Type 0} (f : A → Exec Response) (r : Result A) (d : Db)
      → Then P c f r d
      → Runs c d (on_result r f (λ e. pure (told e))) (Accepted P)
  unfolding on_result
  told_failed f (ok a) d k = k
  told_failed f (err e) d k = Runs-pure c d _ _ (λ s. absurd (omega arith))

  Runs-or_told :
      {A : Type 0} (d : Db) (m : Exec A) (f : A → Exec Response)
      → Runs c d m (Then P c f)
      → Runs c d (or_told m f) (Accepted P)
  Runs-or_told d m f k =
      Runs-bind c d _ _ _ (Runs-attempt c d _ _ (Runs-weaken c d _ _ m (told_failed f) k))

  found_back :
      (d : Db) (id : String) (f : ImageRow → Exec Response) (i : ImageRow) (e : Failure)
      → ((d' : Db) → Recorded c quiet id d' → Runs c d' (f i) (Accepted P))
      → find (is_image id) d.images ≡ some i
      → Runs c d (ok_or (find (is_image id) d.images) e) (Then P c f)
  unfolding ok_or pure Recorded
  found_back d id f i e k h =
      subst (λ o. Runs c d (ok_or o e) (Then P c f)) (sym h) (Runs-pure c d _ i (k d (i, h)))

  -- The image that is recorded is the one found by its id.
  create_image-Recorded :
      (d : Db) (id name tag source : String) (f : ImageRow → Exec Response)
      → ((i : ImageRow) (d' : Db)
          → Asked id name tag source i
          → Recorded c quiet id d'
          → Runs c d' (f i) (Accepted P))
      → Runs c d (create_image id name tag source) (Then P c f)
  unfolding create_image get_image ok_or Recorded
  create_image-Recorded d id name tag source f k = Runs-bind c d _ _ _ (
      Runs-now c d _ (
        Runs-bind c d _ _ _ (
          Runs-constrained c d _ _ _
            (λ v. Runs-bind c _ _ _ _ (
              Runs-query c _ _ _
                (found_back _ id f _ _
                  (λ d' h.
                    k _ d'
                      (record {
                        same_id = refl;
                        same_name = refl;
                        same_tag = refl;
                        same_source = refl;
                      })
                      h)
                  (find-snoc (is_image id) d.images _
                    (any_left (is_image id) (has_name_tag name tag) d.images (none_taken _ _ v))
                    (eq_refl id)))
                (λ x q. tt)))
            (λ x v. tt) (λ x q. tt))))

abbrev pub SomeBuilt : (ℕ → String) → (name tag source : String) → Response → Db → Type 0
SomeBuilt ids name tag source resp d = (n : ℕ) × BuildSettled (ids n) name tag source resp d

module _ (c : Setting) (quiet : c.quiet ≡ true) (source name : String) (tag : Option String) where
  abbrev Built : Response → Db → Type 0
  Built = SomeBuilt c.ids name (or_latest tag) source

  answered :
      (i : ImageRow) (n : ℕ)
      → Asked (c.ids n) name (or_latest tag) source i
      → (r : Result Done) (d : Db) → Settled (c.ids n) d
      → Next c (λ done. pure (with_body 202 (json (built_image_json i)))) (Accepted Built) r d
  answered i n asked (ok done) d h =
      Runs-pure c d _ _ (λ s. (n, (i, asked, refl, subst (λ x. Settled x d) (sym asked.same_id) h)))
  answered i n asked (err e) d h = tt

  build_image-Accepted :
      (d : Db) (answer : HostRow → String → String → String → String → BuildAnswer)
      → Runs c d (build_image answer source name tag) (Accepted Built)
  unfolding build_image list_hosts
  build_image-Accepted d answer = Runs-or_told Built c quiet d _ _ (
      Runs-query c d _ _
        (Runs-on_option c d _ _ _ _
          (λ host e. Runs-bind c d _ _ _ (
            Runs-new_v4 c d _ (λ n. Runs-or_told Built c quiet d _ _ (
              create_image-Recorded Built c quiet d (c.ids n) name _ source _ (λ i d1 asked h.
                Runs-bind c d1 _ _ _ (
                  Runs-weaken c d1 _ _ _ (answered i n asked) (
                    run_build-Settled c quiet (c.ids n) d1
                      (answer host (c.ids n) source name (or_latest tag)) h)))))))
          (λ e. Runs-pure c d _ _ (λ s. absurd (omega arith))))
        (λ x q. tt))

-- When the database answers, whatever the agent answers: a build that is accepted shows in its
-- response the image recorded for it, under one of the ids drawn and with the name, tag and source
-- asked for, and in the end the row with this image's id is not `building` any more.
pub build_image_settles :
    (answer : HostRow → String → String → String → String → BuildAnswer) (source name : String)
    (tag : Option String) (w : World) (resp : Response)
    → w.faults ≡ []
    → w.outcomes ≡ []
    → result (build_image answer source name tag) w ≡ ok resp
    → resp.status ≡ 202
    → SomeBuilt w.ids name
        (or_latest tag)
        source
        resp
        (after (build_image answer source name tag) w).db
build_image_settles answer source name tag w resp f o e s =
    subst
      (λ r.
        Accepted (SomeBuilt w.ids name (or_latest tag) source) r
          (after (build_image answer source name tag) w).db)
      e
      (runs_quiet (build_image answer source name tag) _ w f o
        (build_image-Accepted _ refl source name tag w.db answer))
      s
