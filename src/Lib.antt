-- ===== src/Lib.antt =====
-- A model of the firmware in src/*.c: an ESP32 that reads a DHT11 and a flow sensor, joins a
-- Wi-Fi network or opens a portal to be told of one, and serves the readings over HTTP,
-- WebSocket and telnet.
--
-- The parts and how they meet. src/main.c starts everything, owns the flow counter and runs the
-- loop that ticks the health engine and reconnects. src/sensor_manager.c keeps the readings and
-- who was seen when, and sends log lines to a queue. src/wifi_manager.c keeps the connection
-- state, the staged and the stored credentials and the scan cache; driver events drive it.
-- src/web_server.c is the portal and the dashboard: it decodes the posted credentials and calls
-- wifi_manager_connect. src/dns_server.c leads every name to the portal while the access point
-- is up and is stopped by the callback of wifi_manager_ap_shutdown. src/telnet_server.c sends
-- the log to one client. src/dht_driver.c reads the DHT11 bit by bit. src/led_manager.c blinks.
--
-- The files. Prelude has the shared names, tests, lists, C strings and signed numbers. Platform
-- has what the firmware calls and does not implement, Config the constants of src/app_config.h,
-- and Device the static variables of every source file in one record, with the store of the NVS
-- library and a trace of the calls that act on the world, newest first. Then there is one module
-- for each source file: Sensor, Dns, Dht, Telnet, Led, Wifi (Credentials, Scan, Connect, Events,
-- Startup), Web (Form, Handlers, Requests, Save, Ota, Push, Server) and Main. System puts them
-- together: the firmware from power-on, and then any order of the turns of its tasks, its
-- events, its requests and its callbacks. Wifi.Protocol is an abstract connection protocol,
-- written beside the code; System.Protocol puts what the other files do to the connection beside it,
-- System.Lives has power cycles in a row, and System.Flow what the flow counter counts. A definition has the name of the C function that it models; helpers
-- with other names model a part of it. The children of a module prove properties of it.
-- Platform.Checks has the lemmas on halting runs, Wifi.Invariant and System.Sound what holds of
-- the state between operations. Tests holds examples.
--
-- How C is modelled. A function takes the device and returns the device, with its result where
-- it has one. What a library call returns is an argument. ESP_ERROR_CHECK makes a Run, returned
-- or aborted. none is an access out of bounds where the code could make one, or a loop without
-- fuel. A char array is the list of bytes before its NUL, a file descriptor of -1 is none, times
-- are microseconds of a counter that starts at 0, and uint32_t arithmetic is modulo 2 to the 32.
-- A float is its bit pattern; arithmetic and printing of floats are a parameter. The NVS library
-- is an interface, NvsApi, with its documented behaviour as laws, NvsLaws. Mutexes are taken to have been created, except where a result is checked; they bracket whole
-- operations of the sensor manager, so that these are atomic; tasks and callbacks that share
-- state are lists of events or of turns in their order. A request that starts an attempt to
-- connect is cut where connect_sta waits (Wifi.Connect.Paused, Web.Save.Paused), with the pointer
-- into the scan cache that it keeps; every other turn is taken whole. What the erasing of the
-- flash leaves in the store is the function flash_erase of NvsApi.
--
-- Fuel. The busy-waits of the DHT11 driver have fuel for the samples of one wait; it is enough
-- if the clock passes 100 microseconds within them. The receive loop of an upload has one unit
-- for each byte announced; every round takes at least one.
--
-- Not modelled: components/mdns, a copy of Espressif's library, of which two calls are made; the
-- HTML pages and their generated headers; log output on the serial console; stack sizes,
-- priorities and core numbers of tasks; the build files.
pub mod Prelude
pub mod Config
pub mod Platform
pub mod Device
pub mod Sensor
pub mod Dns
pub mod Dht
pub mod Telnet
pub mod Led
pub mod Wifi
pub mod Web
pub mod Main
pub mod System
pub mod Tests
