-- ===== src/Tests/Reload.antt =====
-- framework/reload.py: two apps, one of which is changed while a request is on.
use json_api_forge.Prelude.{
  nat_eq, refl, true, List, [], In, here, there, contains-In, ok, ◌≡◌, ◌∷◌, string_eq,
}
use json_api_forge.Prelude.Dict.{lookup, assign}
use json_api_forge.Prelude.Parts.{rstrip}
use json_api_forge.Prelude.Text.{text_eq, codes, starts_with}
use json_api_forge.Runtime.Manager.{serves}
use json_api_forge.Reload.Ownership.{Project, prefix, conflicts, check_ownership}
use json_api_forge.Reload.Decide.{
  Surroundings, add_all, by_directory, retained, failed_existing, reconstructed, candidate, settled,
  change, attempt, applies,
}
use json_api_forge.Reload.Applied.{applied_owner_unique, applied_app_runs}
use json_api_forge.Reload.Generations.{
  init, Event, finish, step, run, begins, ends, closes, reloads, decides,
}
use json_api_forge.Reload.Served.{IsServed}
use json_api_forge.Reload.Invariant.{request-IsServed}

abbrev shop : Project
shop = record {
  directory = codes "shop";
  slug = codes "shop";
  api_prefix = codes "/api/shop/";
  content = 1;
}

abbrev blog : Project
blog = record {
  directory = codes "blog";
  slug = codes "blog";
  api_prefix = codes "/api/blog";
  content = 1;
}

-- The files of the blog cannot be read, and a change of the shop is loaded.
abbrev around : Surroundings
around = record {
  signature = ok 2;
  signature_after = ok 2;
  loaded = ok (record shop { content = 2 } ∷ [], codes "blog" ∷ []);
  starts = λ projects. ok tt;
  available = λ projects p. true;
  healthy_directories = codes "shop" ∷ codes "blog" ∷ [];
}

abbrev applied : List Project
applied = record shop { content = 2 } ∷ blog ∷ []

taken_over : attempt around (shop ∷ blog ∷ []) 1 ≡ ok (applies 2 applied)
unfolding attempt change candidate settled by_directory add_all retained failed_existing
    reconstructed check_ownership conflicts rstrip starts_with assign lookup
taken_over = refl

blog-serves : serves (codes "/api/blog/posts") (prefix blog) ≡ true
unfolding serves rstrip starts_with
blog-serves = refl

applied_owner_unique_example : blog ≡ blog
applied_owner_unique_example =
    applied_owner_unique around (shop ∷ blog ∷ []) 1 2 applied taken_over (codes "/api/blog/posts")
      blog blog (there here) (there here) blog-serves blog-serves

applied_app_runs_example : around.available applied blog ≡ true
applied_app_runs_example =
    applied_app_runs around (shop ∷ blog ∷ []) 1 2 applied taken_over blog (there here) refl

-- Request 1 begins before the reload and outlasts it; request 2 comes and goes after it.
abbrev events : List Event
events = begins 1 ∷ reloads ∷ decides (applies 2 applied) ∷ begins 2 ∷ ends 2 ∷ closes 0 ∷ []

still_on : In 1 (run events (init (shop ∷ blog ∷ []) 1)).in_flight
unfolding run step finish init
still_on = contains-In 1 (run events (init (shop ∷ blog ∷ []) 1)).in_flight refl

request-IsServed_example : IsServed 1 (run events (init (shop ∷ blog ∷ []) 1))
request-IsServed_example = request-IsServed (shop ∷ blog ∷ []) 1 events 1 still_on
