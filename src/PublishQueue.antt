-- ===== src/PublishQueue.antt =====
-- manager/vehicle_publish_queue.c: a mailbox of one vehicle between the receive thread and the MQTT
-- thread. Each function runs under the queue's mutex, so that it is one step.
use green_right_topst_linux.Base.{
  Bool, true, false, List, [], ◌∷◌, Option, none, some, if◌then◌else◌, ◌≡◌, refl, ap,
}
use green_right_topst_linux.Types.{VehicleInfo, blank_vehicle}

pub record VehiclePublishQueue : Type 0 where
  pub latest : VehicleInfo
  pub pending : Bool

abbrev pub vehicle_publish_queue_init : VehiclePublishQueue
vehicle_publish_queue_init = record { latest = blank_vehicle; pending = false }

unfoldable pub vehicle_publish_queue_push : VehiclePublishQueue → VehicleInfo → VehiclePublishQueue
vehicle_publish_queue_push queue v = record queue { latest = v; pending = true }

unfoldable pub vehicle_publish_queue_try_pop :
    VehiclePublishQueue → VehiclePublishQueue × Option VehicleInfo
vehicle_publish_queue_try_pop queue =
    if queue.pending then (record queue { pending = false }, some queue.latest) else (queue, none)

-- The operations of the two threads, in the order in which they get the mutex.
pub data Operation : Type 0 where
  push : VehicleInfo → Operation
  try_pop : Operation

-- What the pops of a sequence give, in order.
abbrev pub run : VehiclePublishQueue → List Operation → List (Option VehicleInfo)
run queue [] = []
run queue (Operation.push v ∷ ops) = run (vehicle_publish_queue_push queue v) ops
run queue (Operation.try_pop ∷ ops) =
    let (queue', popped) = vehicle_publish_queue_try_pop queue in popped ∷ run queue' ops

-- The mailbox: the last vehicle pushed and not yet popped.
abbrev pub mailbox : Option VehicleInfo → List Operation → List (Option VehicleInfo)
mailbox box [] = []
mailbox box (Operation.push v ∷ ops) = mailbox (some v) ops
mailbox box (Operation.try_pop ∷ ops) = box ∷ mailbox none ops

abbrev pub content : VehiclePublishQueue → Option VehicleInfo
content queue = if queue.pending then some queue.latest else none

run_lem :
    (v : VehicleInfo) (p : Bool) (ops : List Operation)
    → run (record { latest = v; pending = p }) ops ≡ mailbox (if p then some v else none) ops
unfolding vehicle_publish_queue_push vehicle_publish_queue_try_pop
run_lem v p [] = refl
run_lem v p (Operation.push w ∷ ops) = run_lem w true ops
run_lem v true (Operation.try_pop ∷ ops) = ap (λ rest. some v ∷ rest) (run_lem v false ops)
run_lem v false (Operation.try_pop ∷ ops) = ap (λ rest. none ∷ rest) (run_lem v false ops)

-- Every sequence of pushes and pops gives what the mailbox gives: a pop takes the last vehicle pushed
-- since the previous pop, and nothing if there is none.
pub run-mailbox :
    (queue : VehiclePublishQueue) (ops : List Operation)
    → run queue ops ≡ mailbox (content queue) ops
run-mailbox queue ops = run_lem queue.latest queue.pending ops
