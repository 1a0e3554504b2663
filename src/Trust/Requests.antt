-- ===== src/Trust/Requests.antt =====
-- The requests of container_lab.py to the Docker service.
use itp2_group6_the_pond.Prelude.{
  ◌≡◌, refl, inl, inr, true, false, Option, none, some, List, [], ◌∷◌, ◌++◌, Text, Bool-cases, ◌⊎◌,
}
use itp2_group6_the_pond.Sessions.{
  not_requested, Docker, LabCall, start_lab, stop_lab, Adapter, answered, is_reference, request_row,
  start, stop, is_released,
}

-- Where start does not return, stop asks the service to end the operation of the row's key; where
-- it returns, another start makes no request.
answered-stop :
    (service : Adapter) (again : Text) (d : Docker) (calls : List LabCall) (reply : Option Text)
    → let x = answered d calls reply in
      (x.0.1 ≡ calls)
      × (x.0.0.operation_key ≡ d.operation_key)
      × (((x.1 ≡ true) × (start (some service) again x.0 ≡ (x.0, true)))
          ⊎ ((x.1 ≡ false)
              × ((stop (some service) x.0).0.1 ≡ calls ++ (stop_lab d.operation_key ∷ []))))
unfolding answered start stop is_released
answered-stop service again d calls none = (refl, refl, inr (refl, refl))
answered-stop service again d calls (some reference) = elim (Bool-cases (is_reference reference)) [
  | inl good ↦ rw good (refl, refl, inl (refl, refl))
  | inr bad ↦ rw bad (refl, refl, inr (refl, refl))
]

-- Of an attempt that has made no request, with a configured service: start makes one request, with
-- the new key, which the row has from then on. Where start does not return, stop asks the service to
-- end the operation of the same key; where it returns, another start makes no request.
pub start-stop :
    (service : Adapter) (key again : Text) (d : Docker) (calls : List LabCall)
    → d.docker_status ≡ not_requested
    → let x = start (some service) key (d, calls) in
      (x.0.1 ≡ calls ++ (start_lab (some key) ∷ []))
      × (x.0.0.operation_key ≡ some key)
      × (((x.1 ≡ true) × (start (some service) again x.0 ≡ (x.0, true)))
          ⊎ ((x.1 ≡ false)
              × ((stop (some service) x.0).0.1
                  ≡ (calls ++ (start_lab (some key) ∷ [])) ++ (stop_lab (some key) ∷ []))))
unfolding start answered
start-stop service key again d calls fresh =
    rw (start, fresh)
      (answered-stop service again (request_row key d) (calls ++ (start_lab (some key) ∷ []))
        (service.starts calls (request_row key d)))
