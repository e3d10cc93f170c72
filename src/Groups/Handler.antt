-- ===== src/Groups/Handler.antt =====
-- Who sees the organizer: repo/internal/api/handlers/group.go. The JSON encoding is a parameter.
use task.Base.{ℕ, Bool, true, false, Option, none, some, List, map, ◌==◌, if◌then◌else◌}
use task.Domain.Models.{User}
use task.Groups.Table.{GroupReservation, masked_view, list_groups}

abbrev pub is_owner : User → Option ℕ → Bool
is_owner u none = false
is_owner u (some id) = id == u.id

unfoldable pub can_see_organizer_pii : Option User → GroupReservation → Bool
can_see_organizer_pii none g = false
can_see_organizer_pii (some u) g = if u.is_admin then true else is_owner u g.organizer_id

unfoldable pub project_group : Option User → GroupReservation → GroupReservation
project_group user g = if can_see_organizer_pii user g then g else masked_view g

-- `List`: the body, by the encoding of the projected groups and their number.
unfoldable pub list_body :
    (render : List GroupReservation → List ℕ)
    → Option User
    → (limit offset : ℕ) → List GroupReservation
    → List ℕ
list_body render user limit offset rows =
    render (map (project_group user) (list_groups limit offset rows))
