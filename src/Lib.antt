-- ===== src/Lib.antt =====
-- Verification library of the Governance IoT device firmware.
--
-- The platform provisions, updates and observes microcontrollers. This library models the core that
-- its MQTT firmwares share, the component perceptive-layer/mqtt_protobuff/governance_core: a state
-- machine in one task, handlers that MQTT, WiFi and timer events call, tasks for updates and
-- restarts, and what all of them keep in flash.
--
-- The parts, with the sources under perceptive-layer/mqtt_protobuff/governance_core:
--   AppState    src/AppState.cpp, include/AppState.h: the state of the device, the queue of error
--               events and the mask of active errors. register and settle are the critical sections
--               of setError and resolveError. AppState/Tracking has the mask behind calls of every kind.
--   Device      the state that the modules share, as the record World, and the calls of AppState
--               that also write to flash: set_error, resolve_error, load_persisted_errors. Device/Race
--               has these calls as steps of several tasks.
--   Ota         src/OtaManager.cpp: verify_and_update, download_OTA, set_valid_version,
--               set_invalid_version, verify_rollback.
--   Command     src/CommandProcessor.cpp: manage and the tasks that it starts, with the two calls of
--               src/WatchdogManager.cpp that report errors.
--   Mqtt        src/MqttManager.cpp: the events of the client, reconnection and subscriptions.
--   Wifi        src/WifiManager.cpp: the station, its retries, the wait for a connection, the
--               recovery and the access point.
--   Crypto      src/CryptoManager.cpp: what the boot reads of the credentials; Crypto/Provisioning has
--               the key, its request and the answer of the service.
--   Payload     src/PayloadManager.cpp: JSON objects, field by field.
--   Core        src/governance_core.cpp: Publish (messages), Errors (handle_error), Boot (the handlers
--               up to MQTT_INIT, and SENSORS_INIT), Audit (handle_boot_audit), Loop (the main loop),
--               Power (hibernation, the decision at a wake, deep sleep), Tasks (a round of telemetry_task,
--               status_task and mqtt_publisher_task).
-- The firmwares that use the core, under perceptive-layer/mqtt_protobuff:
--   Sensors     FIRM_OPERATIONAL_MQTT_PROTOBUFF/main: SensorDiscovery.cpp, AdcManager.cpp; Sensors/Hooks
--               has BatteryManager.cpp and the hooks of main.cpp.
--   Gps         FIRM_OPERATIONAL_MQTT_PROTOBUFF/main/src/GpsManager.cpp: the lines and the fix.
--   Portal      FIRM_PROVISIONING_MQTT_PROTOBUFF/main/src/CaptivePortal.cpp: the form and its decoding.
--   Http        FIRM_PROVISIONING_MQTT_PROTOBUFF/main/src/HttpService.cpp: one request.
--   Provisioning  FIRM_PROVISIONING_MQTT_PROTOBUFF/main/main.cpp: the handlers of its main loop, and
--               Provisioning/Onboarding the way from the form of the portal over two boots to the broker.
-- The firmware over HTTP/2:
--   Grpc        perceptive-layer/grpc/grpc_only/main/src/GrpcManager.cpp: frames and the subscription;
--               Grpc/Client has the manager around them.
--   GrpcFirmware  perceptive-layer/grpc/grpc_only/main: State (src/AppState.cpp, with one last error in
--               place of a queue), Ota (src/OtaManager.cpp), Command (src/CommandProcessor.cpp), Crypto
--               (src/CryptoManager.cpp and src/HttpService.cpp), Main, Reports and Audit (the handlers of
--               main.cpp), Loop (the main loop, and beside it the commands of the stream and the tasks of the
--               updates).
-- For all of them:
--   Nvs         the flash storage of ESP-IDF, an interface with the documented laws of its calls.
--   Prelude     shared names, tests on numbers, lists, bits and text.
--   Tests       the theorems at concrete inputs.
--
-- A call that changes state is a function from World to World, with its result beside it. Calls
-- that may stop the chip return an Outcome. Requests to the network, the timers and the tasks are a
-- list of effects in World, newest first. What ESP-IDF, cJSON, nanopb and the hooks of a specific
-- firmware answer are arguments, and so are the answers of mbedTLS, minmea, h2client,
-- esp_http_client and the C library. The float arithmetic of the battery is an interface. A handle
-- of the flash storage is its namespace, its writes succeed, and a text that does not fit the
-- buffer of its reader is read as empty, as nvs_get_str leaves it. Logging and delays are left out.
-- Buffers for topics and details are taken as large enough for what is printed into them, but for
-- the details of the provisioning firmware, which are cut as snprintf cuts them.
--
-- Fuel: wait_loop of Wifi takes the rounds that a wait may use; 200 are enough, since a round without
-- news lasts half a second and the wait ends after 100 s. drain takes the length of the queue, which is
-- enough when no other task adds an event while it runs; an event that another task adds then stays
-- queued for the next turn. scan of Grpc takes one round more than the buffer has bytes, and a frame has
-- five at least. wait_loop of Gps takes one round more than the timeout has tenths of a second.
--
-- Not modelled: the copies of the core's managers in the provisioning firmware, for which the models of
-- the core stand (the copy of AppState lacks the limit of the queue, which the model keeps);
-- BmpManager.cpp, the web server and the initialisation of drivers, which hold no logic; in the firmware
-- over HTTP/2 the MqttManager, which it never starts, and the portal; the variants over JSON, which are
-- older copies of the same managers; nanopb, minmea, h2clientserver_grpc_ready and generated messages,
-- which are other projects' code; and the services, applications and brokers of the platform.
pub mod Prelude
pub mod Nvs
pub mod AppState
pub mod Device
pub mod Ota
pub mod Command
pub mod Mqtt
pub mod Wifi
pub mod Crypto
pub mod Core
pub mod Grpc
pub mod GrpcFirmware
pub mod Gps
pub mod Sensors
pub mod Portal
pub mod Payload
pub mod Http
pub mod Provisioning
pub mod Tests
