-- ===== src/VoiceService/Runner/Keeps.antt =====
-- What a call keeps of the world, whether it returns or raises: one rule for each way to build it.
use repo_viva.Base.{ℕ, Bool, true, false, List, [], ◌∷◌, Result, ok, err, if◌then◌else◌}
use repo_viva.VoiceService.Runner.World.{
  Exception, Fault, goes, raises_before, raises_after, World, M, pure, raise, continue, ◌>>=◌,
  await, faulty, awaiting_with,
}

pub record Keeps {A : Type 0} (P : World → Type 0) (m : M A) : Type 0 where
  pub at : (w : World) → P w → P (m w).1

-- `P` says nothing of the script and the clock.
pub record IsTimeless (P : World → Type 0) : Type 0 where
  pub moved :
      (w : World) (s : List (ℕ × Fault)) (t : ℕ) → P w → P (record w { script = s; clock = t })

module _ {A : Type 0} {P : World → Type 0} where
  pub Keeps-pure : (a : A) → Keeps P (pure a)
  Keeps-pure a = record { at = λ w h. h }

  pub Keeps-raise : (e : Exception) → Keeps P (raise {A = A} e)
  Keeps-raise e = record { at = λ w h. h }

  pub Keeps-if : (b : Bool) (m n : M A) → Keeps P m → Keeps P n → Keeps P (if b then m else n)
  Keeps-if true m n km kn = km
  Keeps-if false m n km kn = kn

  faulty-keeps : (fault : Fault) (m : M A) → Keeps P m → (w : World) → P w → P (faulty fault m w).1
  faulty-keeps goes m k w h = k.at w h
  faulty-keeps (raises_before e) m k w h = h
  faulty-keeps (raises_after e) m k w h = k.at w h

  pub Keeps-await : (m : M A) → IsTimeless P → Keeps P m → Keeps P (await m)
  unfolding await
  Keeps-await m timeless k = record { at = λ w h. go w.script w h }
    where
      go : (s : List (ℕ × Fault)) (w : World) → P w → P (awaiting_with s m w).1
      go [] w h = k.at w h
      go ((t, fault) ∷ rest) w h = faulty-keeps fault m k _ (timeless.moved w rest t h)

module _ {A B : Type 0} {P : World → Type 0} where
  continue-keeps :
      (r : Result Exception A) (f : A → M B)
      → ((a : A) → Keeps P (f a))
      → (w : World) → P w
      → P (continue r f w).1
  continue-keeps (ok a) f k w h = (k a).at w h
  continue-keeps (err e) f k w h = h

  pub Keeps-bind :
      (m : M A) (f : A → M B) → Keeps P m → ((a : A) → Keeps P (f a)) → Keeps P (m >>= f)
  Keeps-bind m f km kf = record { at = λ w h. continue-keeps (m w).0 f kf (m w).1 (km.at w h) }

pub ruleset keeps_rules = (Keeps-pure, Keeps-raise, Keeps-if, Keeps-await, Keeps-bind)
