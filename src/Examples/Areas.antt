-- ===== src/Examples/Areas.antt =====
-- A repository with one source directory: repository-service/src/repository_service/retrieval.
use repo_viva.Base.{◌≡◌, refl, some, [], ◌∷◌}
use repo_viva.RepositoryService.Areas.{FileCounts, pick_areas}
use repo_viva.RepositoryService.Areas.Picked.{Picks, pick_areas-Picks}

abbrev files : FileCounts
files =
    ("README.md", 2)
    ∷ ("src/api/a.py", 5)
    ∷ ("src/api/b/c.py", 3)
    ∷ ("src/web/a.ts", 4)
    ∷ ("src/web/d/e.ts", 1)
    ∷ ("src/main.py", 9)
    ∷ []

-- The root steps into `src`; neither of its directories has two areas of its own.
pick_three :
    pick_areas files 3
    ≡ some (
        record { path = "src/api/"; chunk_count = 8 }
        ∷ record { path = "src/web/"; chunk_count = 5 }
        ∷ [])
unfolding pick_areas
pick_three = refl

pick_areas-Picks_example : Picks files 3 (pick_areas files 3)
pick_areas-Picks_example =
    pick_areas-Picks files 3 (refl, (refl, (refl, (refl, (refl, (refl, tt))))))
