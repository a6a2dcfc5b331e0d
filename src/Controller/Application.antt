-- ===== src/Controller/Application.antt =====
-- common/include/praas/common/application.hpp: what a process knows of the application it is part of.
pub mod Processes
use praas.Base.{Bool, false, ◌||◌, List, [], ◌∷◌, ◌++◌, if◌then◌else◌}
use praas.Base.Int.{ℤ, pos}
use praas.Base.Text.{Text, text_eq}

pub data Status : Type 0 where
  active : Status
  swapped : Status

-- The values of the enumeration.
unfoldable pub status_value : Status → ℤ
status_value active = pos 1
status_value swapped = pos 2

pub record Application : Type 0 where
  pub active_processes : List Text
  pub swapped_processes : List Text

-- `erase` of what `find` returns.
unfoldable pub erase_first : Text → List Text → List Text
erase_first id [] = []
erase_first id (p ∷ ps) = let rest = erase_first id ps in if text_eq p id then ps else p ∷ rest

unfoldable pub contains : Text → List Text → Bool
contains id [] = false
contains id (p ∷ ps) = text_eq p id || contains id ps

unfoldable pub update : Status → Text → Application → Application
unfolding erase_first contains
update active id a = record a { active_processes = a.active_processes ++ id ∷ [] }
update swapped id a =
    if contains id a.active_processes
    then record {
      active_processes = erase_first id a.active_processes;
      swapped_processes = a.swapped_processes ++ id ∷ [];
    }
    else a

-- The struct ApplicationUpdate.
pub record ApplicationUpdate : Type 0 where
  pub status : Status
  pub process_id : Text
