-- ===== src/Controller/RemoteRendezvous.antt =====
-- A message from another process and the `get` for it, in either order.
use praas.Base.Text.{Text}
use praas.Controller.State.{Controller}
use praas.Ipc.GenericRequest
use praas.Ipc.GenericRequest.{GenericRequest}
use praas.Message.Parser as Outer
use praas.Message.PutMessage.{PutMessage}
