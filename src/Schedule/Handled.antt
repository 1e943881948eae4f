-- ===== src/Schedule/Handled.antt =====
-- What a schedule makes of the bindings of a hook, pkg/hook/controller/schedule_bindings_controller.go.
use mathlib.Core.List.{Permᴰ}
use shell_operator.Base.{◌≡◌, map, lookup, String, List, none, nat_key, string_key, [], ◌∷◌}
use mathlib.Core.List.Permᴰ
use shell_operator.Schedule.Links.{ScheduleConfig, ScheduleLink, link_of}

abbrev Links : Type 0
Links = List (String × ScheduleLink)

abbrev entry_of : ScheduleConfig → String × ScheduleLink
entry_of c = (c.schedule_entry.id, link_of c)

-- Every binding has an entry id of its own.
abbrev pub HaveOwnIds : List ScheduleConfig → Type 0
HaveOwnIds [] = Unit
HaveOwnIds (c ∷ cs) = (lookup c.schedule_entry.id (map entry_of cs) ≡ none) × HaveOwnIds cs

abbrev no_links : Links
no_links = []
