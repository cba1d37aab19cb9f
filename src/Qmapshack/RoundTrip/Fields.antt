-- ===== src/Qmapshack/RoundTrip/Fields.antt =====
-- The parts of a track that the exporter writes with QMapShack's defaults.
use gps_trips.Prelude.{ℕ, ◌^◌, ◌<◌, refl, Bool, arith}
use gps_trips.Qmapshack.Carries.{Carries, Carries-ensure, Carries-nothing}
use gps_trips.Qmapshack.Carries.Steps.{carry, step_u8, step_i32, step_f64, last_f64}
use gps_trips.Qmapshack.Blob.{
  write_climit, write_cvalue_double, write_cvalue_bool, write_energy_defaults,
}
use gps_trips.Qmapshack.Decode.{climit, cvalue, energy_set, qvariant}

pub Carries-climit : Carries write_climit climit tt
unfolding write_climit climit
Carries-climit = step_u8 1 _ _ (search (carry, arith) depth 20)

pub Carries-cvalue_double : (v : ℕ) → v < 2 ^ 64 → Carries (write_cvalue_double v) cvalue tt
unfolding write_cvalue_double cvalue qvariant
Carries-cvalue_double v h = step_u8 1 _ _ (search (carry, arith) depth 20)

pub Carries-cvalue_bool : (v : Bool) → Carries (write_cvalue_bool v) cvalue tt
unfolding write_cvalue_bool cvalue qvariant
Carries-cvalue_bool v = step_u8 1 _ _ (search (carry, arith) depth 20)

pub Carries-energy_set : Carries write_energy_defaults energy_set tt
unfolding write_energy_defaults energy_set
Carries-energy_set = step_u8 1 _ _ (
    Carries-ensure _ _ _ _ refl (
      step_f64 _ _ _ (omega arith) (
        step_f64 _ _ _ (omega arith) (
          step_f64 _ _ _ (omega arith) (
            step_i32 _ _ _ (omega arith) (
              step_f64 _ _ _ (omega arith) (
                step_i32 _ _ _ (omega arith) (
                  step_f64 _ _ _ (omega arith) (
                    step_f64 _ _ _ (omega arith) (
                      step_i32 _ _ _ (omega arith) (
                        step_f64 _ _ _ (omega arith) (
                          step_f64 _ _ _ (omega arith)
                            (last_f64 _ _ (omega arith) Carries-nothing)))))))))))))
