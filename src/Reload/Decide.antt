-- ===== src/Reload/Decide.antt =====
-- framework/reload.py, the body of `reload_now` from the signature to the swap: which configuration
-- takes over, if any. What the files hold and which apps start are parameters.
use json_api_forge.Prelude.{
  ℕ, Bool, not, none, some, List, [], map, length, keep, contains, runtime_error, value_error,
  Result, ok, err, reject_if, ◌&&◌, ◌∷◌, ◌++◌, if◌then◌else◌, ◌==◌, ◌>>=◌, ◌>>◌, nat_eq, string_eq,
}
use json_api_forge.Prelude.Dict.{Dict, lookup, assign}
use json_api_forge.Prelude.Text.{Text, text_eq}
use json_api_forge.Reload.Ownership.{Project, check_ownership}

-- What one reload meets: the signature of the files before and after, what load_config_resilient gives
-- (the projects, and the directories that it could not read), whether a candidate of some projects
-- starts, which of its runtimes are available then, and the directories of the current runtimes that
-- are available.
pub record Surroundings : Type 0 where
  pub signature : Result ℕ
  pub signature_after : Result ℕ
  pub loaded : Result (List Project × List Text)
  pub starts : List Project → Result (Unit {0})
  pub available : List Project → Project → Bool
  pub healthy_directories : List Text

-- {Path(project.project_dir).name: project for project in projects}
unfoldable pub add_all : List Project → Dict Text Project → Dict Text Project
add_all [] d = d
add_all (project ∷ projects) d = add_all projects (assign project.directory project d)

unfoldable pub by_directory : List Project → Dict Text Project
unfolding add_all
by_directory projects = add_all projects []

-- [project for name, project in previous.items() if name in issues]
unfoldable pub retained : Dict Text Project → List Text → List Project
retained [] issues = []
retained ((name, project) ∷ previous) issues =
    let rest = retained previous issues in if contains name issues then project ∷ rest else rest

-- The slugs whose runtime fails in the candidate and whose directory runs at present.
unfoldable pub failed_existing : Surroundings → List Project → List Text
failed_existing s projects =
    map (λ p. p.slug)
      (keep (λ p. not (s.available projects p) && contains p.directory s.healthy_directories)
        projects)

unfoldable pub replaced_one : Dict Text Project → Project → Result Project
replaced_one previous project = elim (lookup project.directory previous) [
  | none ↦ err (value_error "Reload cannot replace another app's identity")
  | some old ↦ ok old
]

-- for index, project in enumerate(config.projects): what replaces the ones that failed
unfoldable pub replaced : Dict Text Project → List Text → List Project → Result (List Project)
unfolding replaced_one
replaced previous failed [] = ok []
replaced previous failed (project ∷ projects) = do
  first ← if contains project.slug failed then replaced_one previous project else ok project
  rest ← replaced previous failed projects
  ok (first ∷ rest)

-- The second candidate, with the previous configuration of the apps that failed.
unfoldable pub reconstructed :
    Surroundings → Dict Text Project → List Text → List Project → Result (List Project)
unfolding replaced failed_existing
reconstructed s previous [] projects = ok projects
reconstructed s previous (slug ∷ failed) projects = do
  again ← replaced previous (slug ∷ failed) projects
  check_ownership again
  s.starts again
  reject_if (not (length (failed_existing s again) == 0))
      (runtime_error "Previous runtime could not be reconstructed")
  ok again

pub data Outcome : Type 0 where
  -- nothing changed, or the files changed again meanwhile
  unchanged : Outcome
  superseded : Outcome
  -- the candidate of these projects takes over, under this signature
  applies : ℕ → List Project → Outcome

-- The candidate for a changed signature.
unfoldable pub candidate : Surroundings → List Project → Result (List Project)
unfolding by_directory retained failed_existing reconstructed
candidate s current = do
  loaded ← s.loaded
  let extended = loaded.0 ++ retained (by_directory current) loaded.1
  check_ownership extended
  s.starts extended
  reconstructed s (by_directory current) (failed_existing s extended) extended

unfoldable pub settled : Surroundings → ℕ → List Project → Result Outcome
settled s signature projects = do
  after ← s.signature_after
  if signature == after then ok (applies signature projects) else ok superseded

unfoldable pub change : Surroundings → List Project → ℕ → ℕ → Result Outcome
unfolding candidate settled
change s current observed signature =
    if signature == observed
    then ok unchanged
    else candidate s current >>= (λ projects. settled s signature projects)

unfoldable pub attempt : Surroundings → List Project → ℕ → Result Outcome
unfolding change
attempt s current observed = do signature ← s.signature; change s current observed signature
