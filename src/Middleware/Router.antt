-- ===== src/Middleware/Router.antt =====
-- The routes of repo/internal/api/router.go: method, pattern, gates and the handler's name.
use task.Base.{List, [], ◌∷◌, ◌++◌, String}
use Prim.Native.String.{◌++◌ as append}
use task.Middleware.Gates.{
  Gate, soft, must, rotated, not_blacklisted, admin_only, idempotent, cached,
}

pub data Method : Type 0 where
  get post : Method

pub record Route : Type 0 where
  pub method : Method
  pub pattern : String
  pub gates : List Gate
  pub handler : String

abbrev pub on_get : String → List Gate → String → Route
on_get pattern gates handler = record {
  method = get;
  pattern = pattern;
  gates = gates;
  handler = handler;
}

abbrev pub on_post : String → List Gate → String → Route
on_post pattern gates handler = record {
  method = post;
  pattern = pattern;
  gates = gates;
  handler = handler;
}

-- `Group`: a prefix of the patterns, and gates before those of each route.
abbrev pub grouped : String → List Gate → List Route → List Route
grouped prefix gates [] = []
grouped prefix gates (r ∷ routes) =
    record r { pattern = append prefix r.pattern; gates = gates ++ r.gates }
    ∷ grouped prefix gates routes

abbrev pub page_routes : List Route
page_routes =
    on_get "/healthz" [] "Liveness"
    ∷ on_get "/readyz" [] "Readiness"
    ∷ on_get "/" (soft ∷ []) "Booking.Index"
    ∷ on_get "/auth/login" [] "LoginPage"
    ∷ on_get "/auth/register" [] "RegisterPage"
    ∷ on_get "/availability" (soft ∷ []) "AvailabilityPage"
    ∷ on_get "/bookings/new" (must ∷ rotated ∷ not_blacklisted ∷ []) "Booking.NewPage"
    ∷ on_get "/groups" (soft ∷ []) "Group.IndexHTML"
    ∷ on_get "/groups/:id" (soft ∷ []) "Group.DetailHTML"
    ∷ on_get "/group-buys" (soft ∷ []) "GroupBuy.IndexHTML"
    ∷ on_get "/group-buys/:id" (soft ∷ []) "GroupBuy.DetailHTML"
    ∷ on_get "/documents" (must ∷ rotated ∷ []) "Document.CenterHTML"
    ∷ on_get "/notifications" (must ∷ rotated ∷ []) "Notification.CenterHTML"
    ∷ on_get "/admin/analytics" (must ∷ rotated ∷ []) "Analytics.DashboardHTML"
    ∷ []

abbrev pub auth_routes : List Route
auth_routes =
    on_post "/register" [] "Auth.Register"
    ∷ on_post "/login" [] "Auth.Login"
    ∷ on_post "/logout" (soft ∷ []) "Auth.Logout"
    ∷ on_get "/me" (must ∷ []) "Auth.Me"
    ∷ on_get "/captcha" [] "Auth.Captcha"
    ∷ on_post "/change-password" (must ∷ []) "Auth.ChangePassword"
    ∷ []

abbrev pub resource_routes : List Route
resource_routes =
    on_get "/resources" (soft ∷ cached ∷ []) "Resource.List"
    ∷ on_get "/resources/:id/remaining" (soft ∷ []) "Resource.RemainingSeats"
    ∷ on_get "/availability" (soft ∷ cached ∷ []) "Resource.Availability"
    ∷ []

abbrev pub booking_routes : List Route
booking_routes =
    on_post "" (not_blacklisted ∷ idempotent ∷ []) "Booking.Create"
    ∷ on_get "" [] "Booking.ListMine"
    ∷ on_get "/:id" [] "Booking.Get"
    ∷ on_post "/:id/transition" (idempotent ∷ []) "Booking.Transition"
    ∷ []

abbrev pub group_routes : List Route
group_routes =
    on_post "" (must ∷ rotated ∷ []) "Group.Create"
    ∷ on_get "" (soft ∷ cached ∷ []) "Group.List"
    ∷ on_get "/:id" (soft ∷ []) "Group.Get"
    ∷ []

abbrev pub group_buy_routes : List Route
group_buy_routes =
    on_post "" (must ∷ rotated ∷ not_blacklisted ∷ idempotent ∷ []) "GroupBuy.Create"
    ∷ on_get "" (soft ∷ cached ∷ []) "GroupBuy.List"
    ∷ on_get "/:id" (soft ∷ []) "GroupBuy.Get"
    ∷ on_get "/:id/progress" (soft ∷ []) "GroupBuy.Progress"
    ∷ on_get "/:id/participants" (soft ∷ []) "GroupBuy.Participants"
    ∷ on_post "/:id/join" (must ∷ rotated ∷ not_blacklisted ∷ idempotent ∷ []) "GroupBuy.Join"
    ∷ []

abbrev pub document_routes : List Route
document_routes =
    on_post "/confirmation" (idempotent ∷ []) "Document.Confirmation"
    ∷ on_post "/checkin-pass" (idempotent ∷ []) "Document.CheckinPass"
    ∷ on_get "" [] "Document.List"
    ∷ on_get "/:id" [] "Document.Get"
    ∷ on_get "/:id/content" [] "Document.Content"
    ∷ []

abbrev pub notification_routes : List Route
notification_routes =
    on_get "/notifications" [] "Notification.List"
    ∷ on_get "/notifications/unread-count" [] "Notification.UnreadCount"
    ∷ on_post "/notifications/:id/read" [] "Notification.MarkRead"
    ∷ on_post "/todos" [] "Notification.CreateTodo"
    ∷ on_get "/todos" [] "Notification.ListTodos"
    ∷ on_post "/todos/:id/status" [] "Notification.UpdateTodoStatus"
    ∷ []

abbrev pub analytics_routes : List Route
analytics_routes =
    on_post "/analytics/track" (soft ∷ []) "Analytics.Track"
    ∷ on_get "/analytics/top" (soft ∷ cached ∷ []) "Analytics.Top"
    ∷ on_get "/analytics/trends" (soft ∷ cached ∷ []) "Analytics.Trends"
    ∷ []

abbrev pub governance_routes : List Route
governance_routes =
    on_get "/governance/dictionary" (soft ∷ cached ∷ []) "Governance.Dictionary"
    ∷ on_get "/governance/tags" (soft ∷ cached ∷ []) "Governance.Tags"
    ∷ on_post "/consent/grant" (must ∷ rotated ∷ []) "Governance.GrantConsent"
    ∷ on_post "/consent/withdraw" (must ∷ rotated ∷ []) "Governance.WithdrawConsent"
    ∷ on_get "/consent" (must ∷ rotated ∷ []) "Governance.ListConsent"
    ∷ on_post "/account/delete" (must ∷ rotated ∷ []) "Governance.RequestDeletion"
    ∷ on_post "/account/delete/cancel" (must ∷ rotated ∷ []) "Governance.CancelDeletion"
    ∷ []

abbrev pub admin_routes : List Route
admin_routes =
    on_get "/notification-deliveries" [] "Notification.AdminDeliveries"
    ∷ on_get "/anomalies" [] "Analytics.Anomalies"
    ∷ on_post "/import/resources" [] "Governance.ImportResources"
    ∷ on_get "/export/resources.csv" [] "Governance.ExportResources"
    ∷ on_get "/cache/stats" [] "Admin.CacheStats"
    ∷ on_post "/cache/purge" [] "Admin.CachePurge"
    ∷ on_post "/webhooks" [] "Admin.WebhookCreate"
    ∷ on_get "/webhooks" [] "Admin.WebhookList"
    ∷ on_post "/webhooks/:id/disable" [] "Admin.WebhookDisable"
    ∷ on_get "/webhooks/deliveries" [] "Admin.WebhookDeliveries"
    ∷ on_post "/backups/full" [] "Admin.BackupFull"
    ∷ on_post "/backups/incremental" [] "Admin.BackupIncremental"
    ∷ on_get "/backups" [] "Admin.BackupList"
    ∷ on_get "/backups/restore-plan" [] "Admin.BackupRestorePlan"
    ∷ []

unfoldable pub routes : List Route
routes =
    page_routes
    ++ grouped "/api" [] (
        grouped "/auth" [] auth_routes
        ++ (resource_routes
            ++ (grouped "/bookings" (must ∷ rotated ∷ []) booking_routes
                ++ (grouped "/groups" [] group_routes
                    ++ (grouped "/group-buys" [] group_buy_routes
                        ++ (grouped "/documents" (must ∷ rotated ∷ []) document_routes
                            ++ (grouped "" (must ∷ rotated ∷ []) notification_routes
                                ++ (analytics_routes
                                    ++ (governance_routes
                                        ++ grouped "/admin" (must ∷ rotated ∷ admin_only ∷ [])
                                            admin_routes)))))))))
