-- ===== src/Directory/Steps.antt =====
-- The directory server as a whole (directoryServer.go): its state changes by registrations,
-- deregistrations, inquiries, which check the services they find, and periodic scans.
pub mod Keyed
pub mod Reached
use cogment.Prelude.{ℕ, suc, ◌≡◌, String, Bool, List}
use cogment.Directory.Db.{DbRecord, MemoryDb}
use cogment.Directory.Health.{Probe, now_health_check}
use cogment.Directory.Server.{
  ServerParameters, RegisterRequest, DeregisterRequest, RegisterReply, Fortune, Result, answers,
  register, deregister,
}
use cogment.Directory.Inquire.{Inquiry, db_inquire}

pub data Step (params : ServerParameters) : MemoryDb → MemoryDb → Type 0 where
  registers :
      (md md' : MemoryDb) (request : RegisterRequest) (token : String) (f : Fortune)
      (reply : RegisterReply)
      → register params md request token f ≡ answers (md', reply)
      → Step params md md'
  deregisters :
      (md : MemoryDb) (request : DeregisterRequest) (token : String)
      → Step params md (deregister md request token).0
  inquires :
      (md : MemoryDb) (probes : ℕ → Probe) (now : ℕ) (inquiry : Inquiry) (token : String)
      → Step params md (db_inquire params probes now md inquiry token).0
  scans :
      (md : MemoryDb) (probes : ℕ → Probe) (now : ℕ) (immediate_removal : Bool)
      → Step params md (now_health_check probes now immediate_removal md)

pub data Reach (params : ServerParameters) (start : MemoryDb) : MemoryDb → Type 0 where
  starts : Reach params start start
  steps : (md md' : MemoryDb) → Reach params start md → Step params md md' → Reach params start md'
