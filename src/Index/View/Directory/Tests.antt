-- ===== src/Index/View/Directory/Tests.antt =====
-- A directory of two sections.
use cmafly.Prelude.{ℕ, ◌≡◌, ◌↔◌, List, [], ◌∷◌}
use cmafly.Error.{ok}
use cmafly.Index.View.Directory.{check_directory}
use cmafly.Index.View.Directory.Valid.{ValidDirectory, check_directory-ValidDirectory}

abbrev two_sections : List (ℕ × ℕ)
two_sections = (1, 88) ∷ (2, 96) ∷ []

check_directory-ValidDirectory_example :
    (check_directory 88 100 two_sections ≡ ok tt) ↔ ValidDirectory 88 100 two_sections
check_directory-ValidDirectory_example = check_directory-ValidDirectory 88 100 two_sections
