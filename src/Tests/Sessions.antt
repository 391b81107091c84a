-- ===== src/Tests/Sessions.antt =====
-- The handshake and the recorded sessions at concrete inputs.
use avacadovnc.Common.{
  false, true, ℕ, suc, ◌≡◌, ◌⊎◌, refl, List, [], ◌∷◌, ◌++◌, none, some, arith, length, All,
}
use avacadovnc.Outcome.{ok, eof}
use avacadovnc.Pixel.{default_pixel_format, decode_format, encode_format, IsPixelFormat}
use avacadovnc.Conn.Access.{new_server_conn, security_type}
use avacadovnc.Conn.{Conn, SecurityHandler, security_none, security_vnc}
use avacadovnc.Wire.{be16, be32}
use avacadovnc.Handshake.{client_security_handle, choose, run_handlers, protocol_version}
use avacadovnc.Handshake.Choice.{IsFirst, In, choose-IsFirst}
use avacadovnc.Handshake.Steps.{IsServerConfig}
use avacadovnc.Handshake.Agree.{
  server_script, client_script, client_steps, server_steps, run_handlers_agree,
}
use avacadovnc.Serving.{ended, handle_connection}
use avacadovnc.Serving.Session.{handle_connection-server_steps}
use avacadovnc.Fbs.{FbsReader, new_fbs_reader, record_header, record_read, record_reads}
use avacadovnc.Fbs.Replay.{drain, drain-record_reads}
use avacadovnc.Fbs.Misread.{recording_misread}
use avacadovnc.Handshake.Vnc.{verdict, client_security_handle_vnc}
use avacadovnc.Tests.Data.{client_config, server_config, client_of, server_of}

-- The DES that the library would run: here it gives back the challenge.
abbrev echo : List ℕ → List ℕ → List ℕ
echo key challenge = challenge

default-IsPixelFormat : IsPixelFormat default_pixel_format
default-IsPixelFormat = record {
  bpp_u8 = omega arith;
  depth_u8 = omega arith;
  big_endian_u8 = omega arith;
  true_color_u8 = omega arith;
  red_max_u16 = omega arith;
  green_max_u16 = omega arith;
  blue_max_u16 = omega arith;
  red_shift_u8 = omega arith;
  green_shift_u8 = omega arith;
  blue_shift_u8 = omega arith;
}

server_config-IsServerConfig : IsServerConfig server_config
server_config-IsServerConfig = record {
  width_u16 = omega arith;
  height_u16 = omega arith;
  format = default-IsPixelFormat;
  name_u32 = omega arith;
  some_handler = omega arith;
  handlers_u8 = omega arith;
}

abbrev to_client : List ℕ
to_client = server_script server_config ++ 2 ∷ []

abbrev to_server : List ℕ
to_server = client_script client_config ++ 3 ∷ []

run_handlers_agree_example :
    (run_handlers echo client_steps (client_of to_client) ≡ (
      ok tt,
      record (client_of (2 ∷ [])) {
        protocol = protocol_version;
        sent = client_script client_config;
        security_handler = some security_none;
        fb_width = 640;
        fb_height = 480;
        pixel_format = default_pixel_format;
        desktop_name = 97 ∷ 98 ∷ [];
      },
    ))
    × (run_handlers echo server_steps (server_of to_server) ≡ (
      ok tt,
      record (server_of (3 ∷ [])) {
        sent = server_script server_config;
        security_handler = some security_none;
      },
    ))
run_handlers_agree_example =
    run_handlers_agree echo client_config server_config (2 ∷ []) (3 ∷ []) (client_of to_client)
      (server_of to_server) server_config-IsServerConfig (unfold choose in refl)
      (record { role = refl; up = refl; empty = refl; unsent = refl; given = refl })
      (record { role = refl; up = refl; empty = refl; unsent = refl; given = refl })

choose-IsFirst_example :
    ((h : SecurityHandler) × (choose client_config.security_handlers (30 ∷ 1 ∷ []) ≡ some h)
      × IsFirst client_config.security_handlers (30 ∷ 1 ∷ []) h)
    ⊎ ((choose client_config.security_handlers (30 ∷ 1 ∷ []) ≡ none)
        × All (λ g. ¬ (In (security_type g) (30 ∷ 1 ∷ []))) client_config.security_handlers)
choose-IsFirst_example = choose-IsFirst client_config.security_handlers (30 ∷ 1 ∷ [])

handle_connection-server_steps_example :
    handle_connection echo server_steps server_config to_server
    ≡ ended (ok tt) (record {
      conn = record (new_server_conn to_server server_config) {
        input = 3 ∷ [];
        sent = server_script server_config;
        security_handler = some security_none;
        link_up = false;
      };
      wg = 0;
      closed = true;
    })
handle_connection-server_steps_example =
    handle_connection-server_steps echo client_config server_config (3 ∷ [])
      server_config-IsServerConfig (unfold choose in refl)

abbrev reads : List (List ℕ)
reads = (1 ∷ 2 ∷ 3 ∷ []) ∷ (4 ∷ []) ∷ []

abbrev recorded : Conn
recorded = record (client_of []) { fb_width = 640; fb_height = 480; desktop_name = 97 ∷ 98 ∷ [] }

abbrev played : FbsReader
played = record {
  file = record_reads [] reads;
  pixel_format = default_pixel_format;
  width = 640;
  height = 480;
  desktop_name = [];
  chunk = [];
}

drain-record_reads_example :
    drain (suc (length played.file)) 2 played ≡ some (1 ∷ 2 ∷ 3 ∷ 4 ∷ [], eof)
drain-record_reads_example =
    drain-record_reads 1 reads played ((omega arith, omega arith), ((omega arith, omega arith), tt))
      refl refl

-- The version of the server, and what it sends next.
abbrev greeting : List ℕ
greeting = 82 ∷ 70 ∷ 66 ∷ 32 ∷ 48 ∷ 48 ∷ 51 ∷ 46 ∷ 48 ∷ 48 ∷ 56 ∷ 10 ∷ []

abbrev next_read : List ℕ
next_read = 0 ∷ 0 ∷ 0 ∷ 0 ∷ []

abbrev recording : List ℕ
recording =
    record_reads (record_header recorded (record_reads [] (greeting ∷ next_read ∷ []))) reads

-- What NewFbsReader makes of it.
abbrev misread : FbsReader
misread = record {
  file = record_header recorded [] ++ record_reads [] reads;
  pixel_format = decode_format (0 ∷ 0 ∷ 0 ∷ 12 ∷ greeting);
  width = 0;
  height = 4;
  desktop_name = [];
  chunk = [];
}

recording_misread_example : misread.pixel_format.bpp ≡ 0
recording_misread_example =
    recording_misread greeting (next_read ∷ []) reads recorded misread (omega arith)
      ((omega arith, omega arith), ((omega arith, omega arith), tt))
      ((omega arith, omega arith), ((omega arith, omega arith), tt))
      (unfold new_fbs_reader record_header record_reads record_read encode_format be32 be16 in refl)

abbrev challenge : List ℕ
challenge = 1 ∷ 2 ∷ 3 ∷ 4 ∷ 5 ∷ 6 ∷ 7 ∷ 8 ∷ 9 ∷ 10 ∷ 11 ∷ 12 ∷ 13 ∷ 14 ∷ 15 ∷ 16 ∷ []

-- The server offers "none" and VNC, and refuses the client.
abbrev asked : Conn
asked = client_of (2 ∷ 1 ∷ 2 ∷ (challenge ++ (be32 1 ++ 9 ∷ [])))

client_security_handle_vnc_example : client_security_handle echo asked ≡ (
  verdict 1,
  record asked {
    input = 9 ∷ [];
    sent = 2 ∷ challenge;
    security_handler = some (security_vnc (112 ∷ 119 ∷ []));
  },
)
client_security_handle_vnc_example =
    client_security_handle_vnc echo client_config (112 ∷ 119 ∷ []) (1 ∷ 2 ∷ []) challenge (9 ∷ []) 1
      asked refl (unfold choose in refl) (λ e. omega arith) refl (omega arith) refl refl refl
