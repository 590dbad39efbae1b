-- ===== src/Api/Demo.antt =====
-- internal/api/demo_handler.go: a file whose presence makes the step create-shipment fail.
use flowscale.Prelude.{Bool, ◌==◌, ◌||◌, if◌then◌else◌}
use flowscale.Runtime.{tick}
use flowscale.Api.{Request, Outside, text, shipment, respond, Serving, stop, decoded}

module _ (out : Outside) where
  -- The file counts as there unless os.Stat says that it does not exist.
  unfoldable pub get_shipment_status : Serving
  get_shipment_status w =
      (respond 200 (shipment (w.shipment_down || out.files_fail w.calls)), tick w)

  -- os.Create or os.Remove. The answer is what was asked for, also when the file system refuses.
  unfoldable pub set_shipment : Bool → Serving
  set_shipment down w = (
    respond 200 (shipment down),
    if out.files_fail w.calls then tick w else record (tick w) { shipment_down = down },
  )

  -- The text of encoding/json's own error is left out.
  unfoldable pub set_shipment_status : Request → Serving
  set_shipment_status r = decoded (out.decode_shipment r.body) "invalid json" set_shipment

  unfoldable pub demo_handler : Request → Serving
  demo_handler r =
      if r.method == "GET"
      then get_shipment_status
      else if r.method == "POST"
      then set_shipment_status r
      else stop (respond 405 (text "Method not allowed"))
