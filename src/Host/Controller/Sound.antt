-- ===== src/Host/Controller/Sound.antt =====
-- The events of the controller keep the supervisor to approved entries: src/host/controller.ts.
use status_pipe.Host.Controller.{Controller}
