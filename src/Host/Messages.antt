-- ===== src/Host/Messages.antt =====
-- The messages of the view: src/host/messageRouter.ts and webviewTypes.ts. What only opens something in the editor
-- changes nothing here. The directory is what the handlers meet on it.
use status_pipe.Base.{String, Bool, Option, none, some, List, [], ◌∷◌, Dict, ◌^^◌}
use status_pipe.Supervisor.Fleet.Operations.{Action}
use status_pipe.Host.Loading.{ProtocolFiles, Removal}
use status_pipe.Host.Controller.{Setup, Instant, Controller}
use status_pipe.Host.Controller.Operations.{
  AckReply, WithdrawReply, ack, withdraw_ack, remove_ticket, restart_worker, agent_control, refresh,
}

-- `none` for the action that opens the log.
pub data WebviewMessage : Type 0 where
  ready : WebviewMessage
  open_external : (url : String) → WebviewMessage
  reveal_ticket_file : (root ticket : String) → WebviewMessage
  open_epic_file : (root slug : String) → WebviewMessage
  send_ack : (root ticket : String) (said : Option String) → WebviewMessage
  withdraw : (root ticket ack_id : String) → WebviewMessage
  remove : (root ticket : String) → WebviewMessage
  restart : (root ticket : String) → WebviewMessage
  control : (root id : String) (action : Option Action) → WebviewMessage
  refresh_view : (root : Option String) → WebviewMessage

-- What is posted back to the view.
pub data ExtensionMessage : Type 0 where
  ack_result : (root ticket : String) (result : AckReply) → ExtensionMessage
  withdraw_result : (root ticket : String) (result : WithdrawReply) → ExtensionMessage
  remove_result : (root ticket : String) (result : Removal) → ExtensionMessage

-- What the operator is shown.
pub data Notice : Type 0 where
  warning error : String → Notice

pub record Directory : Type 0 where
  pub inbox_path : String → String → String
  pub inbox : Dict String
  pub files : ProtocolFiles
  pub is_child : String → Bool

pub record Routed : Type 0 where
  pub posted : List ExtensionMessage
  pub notices : List Notice
  pub controller : Controller

abbrev only : Controller → Routed
only c = record { posted = []; notices = []; controller = c }

abbrev pub removal_notice : String → Removal → List Notice
removal_notice ticket Removal.removed = []
removal_notice ticket Removal.not_allowed =
    warning ("Status Pipe: " ^^ ticket ^^ " can't be removed while it is still active.") ∷ []
removal_notice ticket Removal.error =
    error ("Status Pipe: could not remove " ^^ ticket ^^ " (it may no longer exist).") ∷ []

module _ (x : Setup) (i : Instant) (d : Directory) where
  abbrev handle_ack : String → String → Option String → Controller → Routed
  handle_ack root ticket said c =
      let result = ack x i d.inbox_path d.inbox root ticket said c in
      record { posted = ack_result root ticket result.0 ∷ []; notices = []; controller = result.2 }

  abbrev handle_withdraw : String → String → String → Controller → Routed
  handle_withdraw root ticket ack_id c =
      let result = withdraw_ack x i d.inbox_path d.inbox d.files root ticket ack_id c in
      record {
        posted = withdraw_result root ticket result.0 ∷ [];
        notices = [];
        controller = result.2;
      }

  abbrev handle_remove_ticket : String → String → Controller → Routed
  handle_remove_ticket root ticket c =
      let result = remove_ticket x i d.is_child d.files root ticket c in
      record {
        posted = remove_result root ticket result.0 ∷ [];
        notices = removal_notice ticket result.0;
        controller = result.2;
      }

  unfoldable pub route_webview_message : WebviewMessage → Controller → Routed
  route_webview_message ready c = only c
  route_webview_message (open_external url) c = only c
  route_webview_message (reveal_ticket_file root ticket) c = only c
  route_webview_message (open_epic_file root slug) c = only c
  route_webview_message (send_ack root ticket said) c = handle_ack root ticket said c
  route_webview_message (withdraw root ticket ack_id) c = handle_withdraw root ticket ack_id c
  route_webview_message (remove root ticket) c = handle_remove_ticket root ticket c
  route_webview_message (restart root ticket) c = only (restart_worker x i root c)
  route_webview_message (control root id none) c = only c
  route_webview_message (control root id (some action)) c =
      only (agent_control x i root id action c)
  route_webview_message (refresh_view root) c = only (refresh x i root c)
