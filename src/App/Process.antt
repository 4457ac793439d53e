-- ===== src/App/Process.antt =====
-- Whether the program of core/main.c gives back the mutexes and threads that it makes.
use green_right_topst_linux.Base.{
  ℕ, ◌≡◌, refl, List, [], ◌∷◌, Bool, true, false, ◌&&◌, ◌||◌, Option, none, some, ◌==◌,
  if◌then◌else◌, Bool-cases, inl, inr,
}
use green_right_topst_linux.Doubles.{Doubles}
use green_right_topst_linux.Base.{Str}
use green_right_topst_linux.Map.File.{map_service_init}
use green_right_topst_linux.App.{
  Object, self_lock, queue_lock, others_lock, lights_lock, can_rx_thread, can_tx_thread,
  mqtt_thread, MainCall, mutex_init, mutex_destroy, thread_create, thread_join, Startup, app_init,
  start_threads, main, map_path_of,
}

abbrev index : Object → ℕ
index self_lock = 0
index queue_lock = 1
index others_lock = 2
index lights_lock = 3
index can_rx_thread = 4
index can_tx_thread = 5
index mqtt_thread = 6

abbrev pub is_live : Object → List Object → Bool
is_live o [] = false
is_live o (x ∷ xs) = index x == index o || is_live o xs

abbrev pub remove : Object → List Object → List Object
remove o [] = []
remove o (x ∷ xs) = if index x == index o then xs else x ∷ remove o xs

-- What exists after the calls; `none` once a mutex is destroyed that was not initialised, or a thread
-- joined that was not created, which is undefined.
abbrev pub live_after : List Object → List MainCall → Option (List Object)
live_after live [] = some live
live_after live (mutex_init o ∷ calls) = live_after (o ∷ live) calls
live_after live (mutex_destroy o ∷ calls) =
    if is_live o live then live_after (remove o live) calls else none
live_after live (thread_create o true ∷ calls) = live_after (o ∷ live) calls
live_after live (thread_create o false ∷ calls) = live_after live calls
live_after live (thread_join o ∷ calls) =
    if is_live o live then live_after (remove o live) calls else none

-- If the map loads, the queue's mutex is initialised and the three threads start, every mutex and
-- thread is given back exactly once, and the result is 0. In every other case something is destroyed or
-- joined that does not exist; the result is 1 exactly if the map or the mutex failed.
pub live-main :
    (D : Doubles) (atof : Str → D.Double) (startup : Startup) (rx_ok mqtt_ok tx_ok : Bool)
    → let loaded = (map_service_init {D = D} atof (startup.file (map_path_of startup.argv))).1 in
      let begun = loaded && startup.queue_lock_ok in
      let (calls, result) = main D atof startup rx_ok mqtt_ok tx_ok in
      (live_after [] calls ≡ (if begun && (rx_ok && (mqtt_ok && tx_ok)) then some [] else none))
      × (result ≡ (if begun then 0 else 1))
unfolding main app_init start_threads map_service_init
live-main D atof startup rx_ok mqtt_ok tx_ok =
    elim (Bool-cases (map_service_init {D = D} atof (startup.file (map_path_of startup.argv))).1) [
      | inr e ↦ simp e (refl, refl)
      | inl e ↦ elim (Bool-cases startup.queue_lock_ok) [
        | inr f ↦ simp (e, f) (refl, refl)
        | inl f ↦ simp (e, f) (threads rx_ok mqtt_ok tx_ok, refl)
      ]
    ]
  where
    locks : List Object
    locks = lights_lock ∷ others_lock ∷ queue_lock ∷ self_lock ∷ []

    threads :
        (a b c : Bool)
        → live_after locks (
            thread_create can_rx_thread a
            ∷ thread_create mqtt_thread b
            ∷ thread_create can_tx_thread c
            ∷ thread_join can_rx_thread
            ∷ thread_join can_tx_thread
            ∷ thread_join mqtt_thread
            ∷ mutex_destroy lights_lock
            ∷ mutex_destroy others_lock
            ∷ mutex_destroy queue_lock
            ∷ mutex_destroy self_lock
            ∷ [])
          ≡ (if a && (b && c) then some [] else none)
    threads true true true = refl
    threads true true false = refl
    threads true false true = refl
    threads true false false = refl
    threads false true true = refl
    threads false true false = refl
    threads false false true = refl
    threads false false false = refl
