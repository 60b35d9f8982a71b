-- ===== src/Poller/Tests.antt =====
-- A poller that submits at every fourth suspension.
use zedlibs.Prelude.{ℕ, ◌≡◌, refl}
use zedlibs.Poller.{Poller, submit_times, submit, force_submit}
use zedlibs.Poller.Submits.{counted}

abbrev every_fourth : Poller ℕ
every_fourth = record { ring = 0; submit_tick = 0; submit_interval = 4 }

two_submissions :
    submit_times counted 10 every_fourth ≡ record { ring = 2; submit_tick = 2; submit_interval = 4 }
unfolding submit_times submit force_submit
two_submissions = refl
