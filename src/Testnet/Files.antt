-- ===== src/Testnet/Files.antt =====
-- integration_tests/io.go: files that the test network copies and writes.
use burnt.Base.{ℕ, Bool, Bytes, if◌then◌else◌, err, sdk_error}
use burnt.Base.Call.{Call, pure, lift, ◌>>=◌}

-- Files that are open, and what can be done with them.
pub record Files : Type 1 where
  pub Disk : Type 0
  pub File : Type 0
  pub is_regular : Bytes → Call Disk Bool
  pub open_file : Bytes → Call Disk File
  pub create : Bytes → Call Disk File
  pub copy : File → File → Call Disk ℕ
  pub close : File → Disk → Disk
  pub write_file_mode : Bytes → Bytes → ℕ → Call Disk (Unit {0})

module _ (f : Files) where
  -- `defer file.Close()`
  unfoldable pub closing : {A : Type 0} → f.File → Call f.Disk A → Call f.Disk A
  closing file m disk = let (r, disk') = m disk in (r, f.close file disk')

  unfoldable pub copy_file : Bytes → Bytes → Call f.Disk (Unit {0})
  copy_file src dst = do
    regular ← f.is_regular src
    if regular
        then (do
          source ← f.open_file src
          closing source (do
            destination ← f.create dst
            closing destination (do copied ← f.copy destination source; pure tt)))
        else lift (err sdk_error)

  unfoldable pub write_file : Bytes → Bytes → Call f.Disk (Unit {0})
  write_file path body = do file ← f.create path; f.write_file_mode path body 384
